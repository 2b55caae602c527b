-- ===== src/MiniBase/Laws.antt =====
-- The checks of app/minibase_client.go on what the service replies.
use mini_deploy.Prelude.{
  ℕ, eqb, Bool-cases, ◌≡◌, ◌≤◌, ◌<◌, ◌⊎◌, refl, true, Option, none, some, inl, inr, arith,
}
use mini_deploy.Result.{ok}
use mini_deploy.MiniBase.{check_reply, response_limit}
use mini_deploy.MiniBase.Data.{Reply}

-- How a value comes from a reply that arrived.
pub record IsAccepted {ℓ} {A : Type ℓ} (zero a : A) (r : Reply A) : Type ℓ where
  pub in_limit : r.size ≤ response_limit
  pub from_200 : 200 ≤ r.status
  pub below_300 : r.status < 300
  pub value : ((r.status ≡ 204) × (a ≡ zero)) ⊎ (r.decoded ≡ some a)

decoded_value {ℓ} :
    {A : Type ℓ} (zero a : A) (status size : ℕ) (d : Option A)
    → check_reply true zero (some (record { status = status; size = size; decoded = d })) ≡ ok a
    → ((status ≡ 204) × (a ≡ zero)) ⊎ (d ≡ some a)
unfolding check_reply
decoded_value zero a status size none h = inl (ground arith, ground arith)
decoded_value zero a status size (some b) h = elim (Bool-cases (eqb status 204)) [
  | inl t ↦ inl (ground (arith, t), ground (arith, t, h))
  | inr t ↦ inr (ground (arith, t, h))
]

-- A reply yields a value only if it arrived, has a body within the limit of 64 KiB and a status of 200 to
-- 299; the value is what the strict decoding of the body yields, or the zero value at status 204.
pub check_reply-IsAccepted {ℓ} :
    {A : Type ℓ} (zero a : A) (o : Option (Reply A))
    → check_reply true zero o ≡ ok a
    → (r : Reply A) × (o ≡ some r) × IsAccepted zero a r
unfolding check_reply
check_reply-IsAccepted zero a none h = cc
check_reply-IsAccepted zero a (some r) h = (
  r,
  refl,
  record {
    in_limit = ground arith;
    from_200 = ground arith;
    below_300 = ground arith;
    value = decoded_value zero a r.status r.size r.decoded h;
  },
)
