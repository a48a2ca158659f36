-- ===== src/Rest/Decoded.antt =====
-- crates/altair-rest/src/json.rs: how a response is decoded, and what each error means.
use altair_rs.Prelude.{
  ℕ, ◌≤◌, ◌<◌, ◌≡◌, refl, ◌⊎◌, inl, inr, Option, none, some, List, arith, length, ltb, Bool-cases,
}
use altair_rs.Prelude.Async.{Result as AsyncResult, ok, err, Result-cases}
use altair_rs.Rest.Http.{Error, Http, http_failed, decode_failed, response_too_large}
use altair_rs.Rest.Client.{declared, decode_json}

-- The content length, if the response states one, is within the limit.
abbrev pub Declares : ℕ → Option ℕ → Type 0
Declares body_limit none = Unit {0}
Declares body_limit (some len) = len ≤ body_limit

module _ {W U I Q P M X E T D : Type 0} (http : Http W U I Q P M X E)
    (from_slice : List ℕ → AsyncResult T D) (body_limit : ℕ) (response : P) (w : W) where
  -- The ends of a decoding: the answer, and the outside state, which reading the body changes.
  pub data Decodes : AsyncResult T (Error M X D E) × W → Type 0 where
    bad_status : (e : X) → http.error_for_status response ≡ err e → Decodes (err (http_failed e), w)
    declared_too_large :
        (good : P) (len : ℕ)
        → http.error_for_status response ≡ ok good
        → http.content_length good ≡ some len
        → body_limit < len
        → Decodes (err (response_too_large len body_limit), w)
    not_read :
        (good : P) (e : X)
        → http.error_for_status response ≡ ok good
        → Declares body_limit (http.content_length good)
        → (http.bytes good w).0 ≡ err e
        → Decodes (err (http_failed e), (http.bytes good w).1)
    too_large :
        (good : P) (bytes : List ℕ)
        → http.error_for_status response ≡ ok good
        → Declares body_limit (http.content_length good)
        → (http.bytes good w).0 ≡ ok bytes
        → body_limit < length bytes
        → Decodes (err (response_too_large (length bytes) body_limit), (http.bytes good w).1)
    malformed :
        (good : P) (bytes : List ℕ) (e : D)
        → http.error_for_status response ≡ ok good
        → Declares body_limit (http.content_length good)
        → (http.bytes good w).0 ≡ ok bytes
        → length bytes ≤ body_limit
        → from_slice bytes ≡ err e
        → Decodes (err (decode_failed e), (http.bytes good w).1)
    decoded :
        (good : P) (bytes : List ℕ) (value : T)
        → http.error_for_status response ≡ ok good
        → Declares body_limit (http.content_length good)
        → (http.bytes good w).0 ≡ ok bytes
        → length bytes ≤ body_limit
        → from_slice bytes ≡ ok value
        → Decodes (ok value, (http.bytes good w).1)

declared-cases :
    {M X D E : Type 0} (body_limit : ℕ) (o : Option ℕ)
    → (Declares body_limit o × (declared {M = M} {X = X} {D = D} {E = E} body_limit o ≡ ok tt))
      ⊎ ((len : ℕ) × (o ≡ some len)
          × (body_limit < len)
          × (declared {M = M} {X = X} {D = D} {E = E} body_limit o
              ≡ err (response_too_large len body_limit)))
declared-cases body_limit none = inl (tt, refl)
declared-cases body_limit (some len) = elim (Bool-cases (ltb body_limit len)) [
  | inl over ↦ inr (len, refl, ground arith, rw over refl)
  | inr within ↦ inl (ground arith, rw within refl)
]

module _ {W U I Q P M X E T D : Type 0} (http : Http W U I Q P M X E)
    (from_slice : List ℕ → AsyncResult T D) where
  -- `decode_json` answers a value only for a response of good status whose body, as stated and as
  -- read, is within the limit, and serde_json's value of that body; each error has its cause. A
  -- body that is stated too large is not read; one that is not stated is read whole before its
  -- length is looked at.
  pub Decodes-decode_json :
      (body_limit : ℕ) (response : P) (w : W)
      → Decodes http from_slice body_limit response w
          (decode_json http from_slice body_limit response w)
  unfolding decode_json
  Decodes-decode_json body_limit response w = elim (Result-cases (http.error_for_status response)) [
    | inr (e, bad) ↦ rw bad (bad_status e bad)
    | inl (good, fine) ↦
        elim (declared-cases {M = M} {X = X} {D = D} {E = E} body_limit
          (http.content_length good)) [
            | inr (len, stated, over, refused) ↦
                rw (fine, refused) (declared_too_large good len fine stated over)
            | inl (declares, passed) ↦ elim (Result-cases (http.bytes good w).0) [
              | inr (e, failed) ↦ rw (fine, passed, failed) (not_read good e fine declares failed)
              | inl (bytes, read) ↦ elim (Bool-cases (ltb body_limit (length bytes))) [
                | inl over ↦
                    rw (fine, passed, read, over)
                      (too_large good bytes fine declares read (ground (arith, over)))
                | inr within ↦
                    let small : length bytes ≤ body_limit = ground (arith, within) in
                    elim (Result-cases (from_slice bytes)) [
                      | inr (e, wrong) ↦
                          rw (fine, passed, read, within, wrong)
                            (malformed good bytes e fine declares read small wrong)
                      | inl (value, right) ↦
                          rw (fine, passed, read, within, right)
                            (decoded good bytes value fine declares read small right)
                    ]
              ]
            ]
          ]
  ]
