-- ===== src/Temporal/Retry/Policy.antt =====
-- crates/altair-temporal/src/retry.rs: the policies that `build` lets through, and what the
-- message says of them.
use altair_rs.Prelude.{
  ℕ, ◌+◌, ◌*◌, ◌^◌, ◌<◌, ◌≤◌, ◌≡◌, refl, ◌⊎◌, inl, inr, true, arith, ltb, ◌==◌, Bool-cases,
}
use altair_rs.Prelude.Async.{ok}
use altair_rs.Temporal.Error.{IsInvalid}
use altair_rs.Temporal.Retry.{
  Numbers, ProtoDuration, RetryPolicyBuilder, duration_to_proto, build_policy, policy_of,
}

-- The nanoseconds that a message denotes.
abbrev pub nanoseconds : ProtoDuration → ℕ
nanoseconds p = p.seconds * 1000000000 + p.nanos

-- A `Duration` whose seconds an i64 can hold.
abbrev pub longest : ℕ
longest = 2 ^ 63 * 1000000000

-- The message of a duration is normalised, and it denotes the duration, or the largest number of
-- seconds with the fraction where the seconds do not fit an i64.
pub duration_to_proto_lem :
    (d : ℕ)
    → ((duration_to_proto d).nanos < 1000000000)
      × ((duration_to_proto d).seconds < 2 ^ 63)
      × (d < longest → nanoseconds (duration_to_proto d) ≡ d)
      × (nanoseconds (duration_to_proto d) ≤ d)
unfolding duration_to_proto
duration_to_proto_lem d = (ground arith, ground arith, λ h. ground arith, ground arith)

-- The conditions that the documentation of `build` lists.
pub record IsSound {F : Type 0} (numbers : Numbers F) (self : RetryPolicyBuilder F) : Type 0 where
  pub finite : numbers.is_finite self.backoff_coefficient ≡ true
  pub positive : numbers.is_positive self.backoff_coefficient ≡ true
  pub starts : 0 < self.initial_interval
  pub ordered : self.initial_interval ≤ self.maximum_interval

module _ {F B : Type 0} (numbers : Numbers F) (self : RetryPolicyBuilder F) where
  -- A builder whose coefficient is finite and positive, and whose intervals are positive and in
  -- order, is built into the message of its parts; any other is refused as an invalid
  -- configuration.
  pub build_policy_lem :
      (IsSound numbers self × (build_policy {B = B} numbers self ≡ ok (policy_of self)))
      ⊎ (¬ IsSound numbers self × IsInvalid (build_policy {B = B} numbers self))
  unfolding build_policy
  build_policy_lem = elim (Bool-cases (numbers.is_finite self.backoff_coefficient)) [
    | inr infinite ↦ inr (λ sound. cc (infinite, sound.finite), rw infinite tt)
    | inl finite ↦ elim (Bool-cases (numbers.is_positive self.backoff_coefficient)) [
      | inr negative ↦ inr (λ sound. cc (negative, sound.positive), rw (finite, negative) tt)
      | inl positive ↦ elim (Bool-cases (self.initial_interval == 0)) [
        | inl zero ↦
            inr (
              λ sound. let s = sound.starts in ground (arith, zero),
              rw (finite, positive, zero) tt,
            )
        | inr starts ↦ elim (Bool-cases (self.maximum_interval == 0)) [
          | inl zero ↦ inr (
            λ sound. let s = sound.starts in let o = sound.ordered in ground (arith, zero),
            rw (finite, positive, starts, zero) tt,
          )
          | inr ends ↦ elim (Bool-cases (ltb self.maximum_interval self.initial_interval)) [
            | inl over ↦ inr (
              λ sound. let o = sound.ordered in ground (arith, over),
              rw (finite, positive, starts, ends, over) tt,
            )
            | inr ordered ↦ inl (
              record {
                finite = finite;
                positive = positive;
                starts = ground arith;
                ordered = ground arith;
              },
              rw (finite, positive, starts, ends, ordered) refl,
            )
          ]
        ]
      ]
    ]
  ]
