-- ===== src/Operator/Recorded.antt =====
-- A client that also keeps the list of the writes that were sent, oldest first. It
-- answers as the client that it wraps.
use iron_book.Common.{◌≡◌, refl, Bool, true, false, List, [], ◌∷◌, ◌++◌, Option, none, some, All}
use iron_book.Kube.{Pod}
use iron_book.Operator.Types.{BenchmarkRun, Submission, Scenario}
use iron_book.Operator.Client.{Client, ApiError, Got, found, failed, Service}
use iron_book.Operator.Flow.{
  Requeue, Flow, go_on, return, M, ◌>>=◌, finish, finish_with, return_if, check, fetch, and_check,
  try, pass, return_error,
}

pub data Write : Type 0 where
  put_run put_run_status : BenchmarkRun → Write
  put_submission_status : Submission → Write
  put_scenario_status : Scenario → Write
  made_pod removed_pod : Pod → Write
  made_service : Service → Write

module _ (c : Client) where
  abbrev Logged : Type 0
  Logged = c.World × List Write

  abbrev pub log_write :
      {A : Type 0}
      → (A → Write)
      → (A → c.World → Option ApiError × c.World)
      → A
      → Logged
      → Option ApiError × Logged
  log_write sort write a (w, log) = let (e, w') = write a w in (e, (w', log ++ sort a ∷ []))

  abbrev pub recorded : Client
  recorded = record {
    World = Logged;
    get_run = λ key w. c.get_run key w.0;
    get_submission = λ key w. c.get_submission key w.0;
    get_scenario = λ key w. c.get_scenario key w.0;
    get_bot_swarm = λ key w. c.get_bot_swarm key w.0;
    list_pods = λ namespace run w. c.list_pods namespace run w.0;
    update_run = log_write put_run c.update_run;
    update_run_status = log_write put_run_status c.update_run_status;
    update_submission_status = log_write put_submission_status c.update_submission_status;
    update_scenario_status = log_write put_scenario_status c.update_scenario_status;
    create_pod = log_write made_pod c.create_pod;
    create_service = log_write made_service c.create_service;
    delete_pod = log_write removed_pod c.delete_pod;
    set_status_condition = c.set_status_condition;
    set_controller_reference = c.set_controller_reference;
    contains_finalizer = c.contains_finalizer;
    add_finalizer = c.add_finalizer;
    remove_finalizer = c.remove_finalizer;
    quote = c.quote;
    error_text = c.error_text;
  }

  -- Whatever `m` writes satisfies P.
  module _ {ℓ} (P : Write → Type ℓ) where
    -- Whatever `m` writes satisfies P.
    pub record Logs {A : Type 0} (m : M Logged A) : Type ℓ where
      pub kept : (w : c.World) (log : List Write) → All P log → All P (m (w, log)).1.1

    All-append_one : (log : List Write) (x : Write) → All P log → P x → All P (log ++ x ∷ [])
    All-append_one [] x h p = (p, tt)
    All-append_one (y ∷ log) x h p = (h.0, All-append_one log x h.1 p)

    bind_at :
        {A B : Type 0} (f : A → M Logged B) (x : Flow A × Logged)
        → ((a : A) → Logs (f a))
        → All P x.1.1
        → All P (((λ (_ : Logged). x) >>= f) x.1).1.1
    unfolding ◌>>=◌
    bind_at f (go_on a, (w, log)) hf h = (hf a).kept w log h
    bind_at f (return r, w) hf h = h

    pub bind-Logs :
        {A B : Type 0} {m : M Logged A} {f : A → M Logged B}
        → Logs m
        → ((a : A) → Logs (f a))
        → Logs (m >>= f)
    unfolding ◌>>=◌
    bind-Logs {A} {B} {m} {f} hm hf = record {
      kept = λ w log h. bind_at f (m (w, log)) hf (hm.kept w log h);
    }

    pub finish-Logs : (A : Type 0) (r : Requeue) (e : Option ApiError) → Logs (finish {A = A} r e)
    unfolding finish
    finish-Logs A r e = record { kept = λ w log h. h }

    pub return_if-Logs : (b : Bool) (r : Requeue) → Logs (return_if b r)
    unfolding return_if
    return_if-Logs true r = record { kept = λ w log h. h }
    return_if-Logs false r = record { kept = λ w log h. h }

    -- Where the condition holds, what follows is not reached.
    pub return_if-true-Logs :
        {B : Type 0} (r : Requeue) (f : Unit {0} → M Logged B) → Logs (return_if true r >>= f)
    unfolding return_if ◌>>=◌
    return_if-true-Logs r f = record { kept = λ w log h. h }

    pub pass-Logs : Logs pass
    unfolding pass
    pass-Logs = record { kept = λ w log h. h }

    check-Logs : (e : Option ApiError) → Logs (check e)
    unfolding check
    check-Logs none = record { kept = λ w log h. h }
    check-Logs (some e) = record { kept = λ w log h. h }

    pub try-Logs : {A : Type 0} (x : Got A) → Logs (try x)
    unfolding try finish
    try-Logs (found a) = record { kept = λ w log h. h }
    try-Logs (failed e) = record { kept = λ w log h. h }

    -- A read, which writes nothing.
    pub fetch-Logs :
        {A : Type 0} (get : Logged → Got A) (or_else : ApiError → M Logged A)
        → ((e : ApiError) → Logs (or_else e))
        → Logs (fetch get or_else)
    unfolding fetch
    fetch-Logs {A} get or_else h = record { kept = λ w log k. at w log (get (w, log)) k }
      where
        at :
            (w : c.World) (log : List Write) (x : Got A)
            → All P log
            → All P (fetch {A = A} (λ (_ : Logged). x) or_else (w, log)).1.1
        at w log (found a) k = k
        at w log (failed e) k = (h e).kept w log k

    -- A read whose error ends the handler, by what it found.
    pub fetch->>=-kept :
        {A B : Type 0} (get : Logged → Got A) (f : A → M Logged B) (w : Logged)
        → All P w.1
        → ((a : A) → get w ≡ found a → All P (f a w).1.1)
        → All P ((fetch get return_error >>= f) w).1.1
    unfolding fetch ◌>>=◌ finish
    fetch->>=-kept {A} {B} get f w h hf = at (get w) hf
      where
        at :
            (x : Got A)
            → ((a : A) → x ≡ found a → All P (f a w).1.1)
            → All P ((fetch (λ (_ : Logged). x) return_error >>= f) w).1.1
        at (found a) k = k a refl
        at (failed e) k = h

    module _ {V : Type 0} (sort : V → Write) (write : V → c.World → Option ApiError × c.World)
        (v : V) (p : P (sort v)) where
      pub finish_with-Logs :
          (A : Type 0) (r : Requeue) → Logs (finish_with {A = A} r (log_write sort write v))
      unfolding finish_with
      finish_with-Logs A r = record { kept = λ w log h. All-append_one log (sort v) h p }

      pub and_check-Logs :
          (ignore : Option ApiError → Option ApiError)
          → Logs (and_check (log_write sort write v) ignore)
      unfolding and_check
      and_check-Logs ignore = record {
        kept = λ w log h.
            (check-Logs (ignore (write v w).0)).kept (write v w).1 _
              (All-append_one log (sort v) h p);
      }
