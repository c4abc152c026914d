-- ===== src/Admission/Webhook.antt =====
-- apps/admission-webhook/main.go, `handle`: an AdmissionReview comes in, and a review that carries
-- the decision goes out. The JSON decoders of the review and of the pod are parameters.
use iron_book.Common.{
  ℕ, String, ◌≡◌, ◌↔◌, inl, inr, refl, ap, Bool, true, false, Bool-cases, Option, none, some, arith,
  str_eq, eq_iff, if◌then◌else◌,
}
use iron_book.Common.Text.{concat}
use iron_book.Common.Result.{Result, ok, err}
use iron_book.Kube.{Pod}
use iron_book.Admission.Policy.{Decision, validate}

pub record AdmissionRequest (R : Type 0) : Type 0 where
  pub uid : String
  pub object_raw : R

-- `metav1.Status`.
pub record Status : Type 0 where
  pub code : ℕ
  pub message : String

pub record AdmissionResponse : Type 0 where
  pub uid : String
  pub allowed : Bool
  pub result : Option Status

pub data Answer : Type 0 where
  http_error : ℕ → String → Answer
  review : AdmissionResponse → Answer

-- The response to a decoded pod.
decide : String → Decision → AdmissionResponse
decide uid d = if d.allowed then record { uid = uid; allowed = true; result = none } else record {
  uid = uid;
  allowed = false;
  result = some (record { code = 403; message = d.reason });
}

respond_pod : String → Result Pod → AdmissionResponse
unfolding decide
respond_pod uid (err e) = record {
  uid = uid;
  allowed = false;
  result = some (record { code = 400; message = concat "could not decode Pod: " e });
}
respond_pod uid (ok pod) = decide uid (validate pod)

not_reviewed : (a : AdmissionResponse) → ¬ (http_error 405 "method not allowed" ≡ review a)
not_reviewed a h = cc

-- What the response to a pod says: the UID of the request, allowed exactly for a pod that decodes
-- and that the policy allows, and a status exactly where it is not allowed.
pub record Decides (uid : String) (x : Result Pod) (a : AdmissionResponse) : Type 0 where
  pub same_uid : a.uid ≡ uid
  pub allowed_if : (pod : Pod) → x ≡ ok pod → (validate pod).allowed ≡ true → a.allowed ≡ true
  pub only_if : a.allowed ≡ true → (pod : Pod) × (x ≡ ok pod) × ((validate pod).allowed ≡ true)
  pub explained : (a.result ≡ none) ↔ (a.allowed ≡ true)

respond_pod-Decides : (uid : String) (x : Result Pod) → Decides uid x (respond_pod uid x)
unfolding respond_pod
respond_pod-Decides uid (err e) = record {
  same_uid = refl;
  allowed_if = λ pod h. cc;
  only_if = λ h. cc;
  explained = (λ h. cc, λ h. cc);
}
respond_pod-Decides uid (ok pod) = record {
  same_uid = ground arith;
  allowed_if = λ pod' h v. ground arith;
  only_if = λ h. (pod, refl, ground arith);
  explained = (λ h. ground arith, λ h. ground arith);
}

module _ {B R : Type 0} (decode_review : B → Result (Option (AdmissionRequest R)))
    (decode_pod : R → Result Pod) where
  respond_review : Result (Option (AdmissionRequest R)) → Answer
  respond_review (err e) = http_error 400 e
  respond_review (ok none) = http_error 400 "missing AdmissionRequest"
  respond_review (ok (some r)) = review (respond_pod r.uid (decode_pod r.object_raw))

  pub handle : String → B → Answer
  unfolding respond_review respond_pod
  handle method body =
      if str_eq method "POST"
      then respond_review (decode_review body)
      else http_error 405 "method not allowed"

  reviewed :
      (x : Result (Option (AdmissionRequest R))) (a : AdmissionResponse)
      → respond_review x ≡ review a
      → (r : AdmissionRequest R) × (x ≡ ok (some r))
  unfolding respond_review
  reviewed (err e) a h = cc
  reviewed (ok none) a h = cc
  reviewed (ok (some r)) a h = (r, refl)

  -- A POST whose body is a review with a request is answered by a review for that request, which
  -- allows exactly the pods that decode and that the policy allows, and explains a refusal. No
  -- other request is answered by a review.
  pub handle-Decides :
      (method : String) (body : B)
      → ((r : AdmissionRequest R)
          → method ≡ "POST"
          → decode_review body ≡ ok (some r)
          → (a : AdmissionResponse) × (handle method body ≡ review a)
            × Decides r.uid (decode_pod r.object_raw) a)
        × ((a : AdmissionResponse)
            → handle method body ≡ review a
            → (method ≡ "POST") × (r : AdmissionRequest R) × (decode_review body ≡ ok (some r)))
  unfolding handle
  handle-Decides method body = (
    λ r m e. (
      respond_pod r.uid (decode_pod r.object_raw),
      rw ((eq_iff method "POST").1 m) (ap respond_review e),
      respond_pod-Decides r.uid (decode_pod r.object_raw),
    ),
    λ a h. elim (Bool-cases (str_eq method "POST")) [
      | inl post ↦
          (let (r, e) = reviewed (decode_review body) a (rw post at h) in
            ((eq_iff method "POST").0 post, r, e))
      | inr other ↦ absurd (not_reviewed a (rw other at h))
    ],
  )
