-- ===== src/Gateway/Server/Parallel/Orders.antt =====
-- What the handlers of the gateway have sent, and how a turn adds to it
-- (apps/fairness-gateway/gateway/server.go, fork.go).
use mathlib.Core.List.{append-nil, append_assoc, Perm, perm_append_comm}
use mathlib.Core.List.Perm
use iron_book.Common.{
  Bool-cases, inl, inr, str_eq, ◌≡◌, refl, sym, ap, ap₂, ◌∙◌, List, [], ◌∷◌, ◌++◌, map, none, some,
  All,
}
use iron_book.Common.Result.{Result, ok, err}
use iron_book.Gateway.Proto.{NormalizedOrder, Reply}
use iron_book.Gateway.Fork.{
  Intakes, Source, Event, on_in, on_reply, Sink, record_in, tee, Thread, calling, called, done,
}
use iron_book.Gateway.Server.{RestOrder, Request, Handled}
use iron_book.Gateway.Server.Parallel.{
  Handling, arrived, stamped, forked, refused, served, arrived_with, arrive,
}
use iron_book.Gateway.Server.Parallel.Ends.{IsEnded}

-- The services, with the orders that each was called with, oldest first, whether or not the call
-- succeeded.
abbrev pub recording : Intakes → Intakes
recording f = record {
  World = List NormalizedOrder × List NormalizedOrder × f.World;
  submission = λ o w. let (x, w') = f.submission o w.2 in (x, (w.0 ++ o ∷ [], w.1, w'));
  oracle = λ o w. let (x, w') = f.oracle o w.2 in (x, (w.0, w.1 ++ o ∷ [], w'));
}

-- The orders that `OnIn` has recorded, oldest first.
abbrev pub log_orders : List Event → List NormalizedOrder
log_orders [] = []
log_orders (on_in o ∷ log) = o ∷ log_orders log
log_orders (on_reply o source r ∷ log) = log_orders log

abbrev pub sink_orders : Sink → List NormalizedOrder
sink_orders none = []
sink_orders (some log) = log_orders log

abbrev pub HasSink : Sink → Type 0
HasSink none = ⊥
HasSink (some log) = Unit

-- The order of a goroutine that has made its call.
abbrev pub sent : NormalizedOrder → Thread → List NormalizedOrder
sent o calling = []
sent o (called r) = o ∷ []
sent o (done r) = o ∷ []

-- What a handler has sent to the submission, to the oracle, and to `OnIn`.
abbrev pub to_submission : Handling → List NormalizedOrder
to_submission (arrived ro) = []
to_submission (stamped o) = []
to_submission (forked o a b) = sent o a
to_submission (refused h) = []
to_submission (served o h) = o ∷ []

abbrev pub to_oracle : Handling → List NormalizedOrder
to_oracle (arrived ro) = []
to_oracle (stamped o) = []
to_oracle (forked o a b) = sent o b
to_oracle (refused h) = []
to_oracle (served o h) = o ∷ []

abbrev pub to_sink : Handling → List NormalizedOrder
to_sink (arrived ro) = []
to_sink (stamped o) = []
to_sink (forked o a b) = o ∷ []
to_sink (refused h) = []
to_sink (served o h) = o ∷ []

abbrev pub of_all : (Handling → List NormalizedOrder) → List Handling → List NormalizedOrder
of_all c [] = []
of_all c (h ∷ hs) = c h ++ of_all c hs

-- A log and the part of a handler in it grow by the same orders.
pub record Adds (c : Handling → List NormalizedOrder) (x x' : List NormalizedOrder)
    (h h' : Handling) : Type 0 where
  pub added : List NormalizedOrder
  pub log : x' ≡ x ++ added
  pub part : c h' ≡ c h ++ added

pub nothing :
    (c : Handling → List NormalizedOrder) {x x' : List NormalizedOrder} (h h' : Handling)
    → x' ≡ x
    → c h' ≡ c h
    → Adds c x x' h h'
nothing c {x} h h' e e' = record {
  added = [];
  log = e ∙ sym (append-nil x);
  part = e' ∙ sym (append-nil (c h));
}

-- The same for all handlers, in some order.
pub record AddsAll (c : Handling → List NormalizedOrder) (x x' : List NormalizedOrder)
    (hs hs' : List Handling) : Type 0 where
  pub added : List NormalizedOrder
  pub log : x' ≡ x ++ added
  pub part : Perm (of_all c hs') (of_all c hs ++ added)

module _ (c : Handling → List NormalizedOrder) {x x' : List NormalizedOrder} where
  pub Adds-head :
      {h h' : Handling} (hs : List Handling) → Adds c x x' h h' → AddsAll c x x' (h ∷ hs) (h' ∷ hs)
  Adds-head {h} hs a = record {
    added = a.added;
    log = a.log;
    part =
        rw
          (
            a.part,
            append_assoc (c h) a.added (of_all c hs),
            append_assoc (c h) (of_all c hs) a.added,
          )
          (Perm.append_left (c h) (perm_append_comm a.added (of_all c hs)));
  }

  pub AddsAll-tail :
      (h : Handling) {hs hs' : List Handling}
      → AddsAll c x x' hs hs'
      → AddsAll c x x' (h ∷ hs) (h ∷ hs')
  AddsAll-tail h {hs} a = record {
    added = a.added;
    log = a.log;
    part = rw (append_assoc (c h) (of_all c hs) a.added) (Perm.append_left (c h) a.part);
  }

  pub AddsAll-Perm :
      {hs hs' : List Handling}
      → AddsAll c x x' hs hs'
      → Perm x (of_all c hs)
      → Perm x' (of_all c hs')
  AddsAll-Perm a q = rw a.log (Perm.trans (Perm.append_right a.added q) (Perm.symm a.part))

log_orders-append : (xs ys : List Event) → log_orders (xs ++ ys) ≡ log_orders xs ++ log_orders ys
log_orders-append [] ys = refl
log_orders-append (on_in o ∷ xs) ys = ap (◌∷◌ o) (log_orders-append xs ys)
log_orders-append (on_reply o source r ∷ xs) ys = log_orders-append xs ys

pub sink_orders-record_in :
    (o : NormalizedOrder) (k : Sink)
    → HasSink k
    → sink_orders (record_in (on_in o) k) ≡ sink_orders k ++ o ∷ []
sink_orders-record_in o none h = absurd h
sink_orders-record_in o (some log) h = log_orders-append log (on_in o ∷ [])

pub sink_orders-tee :
    (o : NormalizedOrder) (source : Source) (r : Result Reply) (k : Sink)
    → sink_orders (tee o source r k) ≡ sink_orders k
sink_orders-tee o source (ok r) none = refl
sink_orders-tee o source (ok r) (some log) =
    log_orders-append log (on_reply o source r ∷ []) ∙ append-nil (log_orders log)
sink_orders-tee o source (err e) k = refl

pub record_in-HasSink : (e : Event) (k : Sink) → HasSink k → HasSink (record_in e k)
record_in-HasSink e none h = h
record_in-HasSink e (some log) h = tt

pub tee-HasSink :
    (o : NormalizedOrder) (source : Source) (r : Result Reply) (k : Sink)
    → HasSink k
    → HasSink (tee o source r k)
tee-HasSink o source (ok r) k h = record_in-HasSink _ k h
tee-HasSink o source (err e) k h = h

-- The order of a handler that has ended, if it was not refused.
abbrev pub served_order : Handling → List NormalizedOrder
served_order (arrived ro) = []
served_order (stamped o) = []
served_order (forked o a b) = []
served_order (refused h) = []
served_order (served o h) = o ∷ []

module _ (c : Handling → List NormalizedOrder)
    (same : (h : Handling) → IsEnded h → c h ≡ served_order h) where
  pub of_all-served : (hs : List Handling) → All IsEnded hs → of_all c hs ≡ of_all served_order hs
  of_all-served [] e = refl
  of_all-served (h ∷ hs) e = ap₂ ◌++◌ (same h e.0) (of_all-served hs e.1)

-- Requests that have just arrived have sent nothing.
module _ (c : Handling → List NormalizedOrder) (at_start : (ro : RestOrder) → c (arrived ro) ≡ [])
    (at_refusal : (h : Handled) → c (refused h) ≡ []) where
  arrived_with-none : (x : Result RestOrder) → c (arrived_with x) ≡ []
  arrived_with-none (ok ro) = at_start ro
  arrived_with-none (err e) = at_refusal _

  arrive-none :
      {B : Type 0} (decode : B → Result RestOrder) (r : Request B) → c (arrive decode r) ≡ []
  unfolding arrive
  arrive-none decode r = elim (Bool-cases (str_eq r.method "POST")) [
    | inl post ↦ rw post (arrived_with-none (decode r.body))
    | inr other ↦ rw other (at_refusal _)
  ]

  pub of_all-arrive :
      {B : Type 0} (decode : B → Result RestOrder) (rs : List (Request B))
      → of_all c (map (arrive decode) rs) ≡ []
  of_all-arrive decode [] = refl
  of_all-arrive decode (r ∷ rs) = ap₂ ◌++◌ (arrive-none decode r) (of_all-arrive decode rs)

pub IsEnded-to_submission : (h : Handling) → IsEnded h → to_submission h ≡ served_order h
IsEnded-to_submission (arrived ro) e = absurd e
IsEnded-to_submission (stamped o) e = absurd e
IsEnded-to_submission (forked o a b) e = absurd e
IsEnded-to_submission (refused h) e = refl
IsEnded-to_submission (served o h) e = refl

pub IsEnded-to_oracle : (h : Handling) → IsEnded h → to_oracle h ≡ served_order h
IsEnded-to_oracle (arrived ro) e = absurd e
IsEnded-to_oracle (stamped o) e = absurd e
IsEnded-to_oracle (forked o a b) e = absurd e
IsEnded-to_oracle (refused h) e = refl
IsEnded-to_oracle (served o h) e = refl

pub IsEnded-to_sink : (h : Handling) → IsEnded h → to_sink h ≡ served_order h
IsEnded-to_sink (arrived ro) e = absurd e
IsEnded-to_sink (stamped o) e = absurd e
IsEnded-to_sink (forked o a b) e = absurd e
IsEnded-to_sink (refused h) e = refl
IsEnded-to_sink (served o h) e = refl
