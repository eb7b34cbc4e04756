-- ===== src/Transport/Request.antt =====
-- One request of transport.go: `try` and the body limit.
use tgju_api_go.Common.{
  ℕ, zero, suc, ◌+◌, ◌≤◌, ◌<◌, [], ◌∷◌, none, some, ◌≡◌, ◌≢◌, refl, ap, arith, length, sym, ◌∙◌,
  ◌^◌, leb, ltb, false, ◌==◌, ==_iff, Bool-cases, inl, inr, Option,
}
use tgju_api_go.Errors.{Err}
use tgju_api_go.Transport.{
  Body, Exchange, malformed, unanswered, answered, take, try, read_body, measured, allowance,
  Attempt,
}

take-short : (n : ℕ) (bs : Body) → length (take n bs) < n → take n bs ≡ bs
take-short zero bs h = absurd (omega arith)
take-short (suc n) [] h = refl
take-short (suc n) (b ∷ bs) h = ap (λ t. b ∷ t) (take-short n bs (omega arith))

length-take-le : (n : ℕ) (bs : Body) → length bs ≤ n → take n bs ≡ bs
length-take-le zero [] h = refl
length-take-le zero (b ∷ bs) h = absurd (omega arith)
length-take-le (suc n) [] h = refl
length-take-le (suc n) (b ∷ bs) h = ap (λ t. b ∷ t) (length-take-le n bs (omega arith))

-- the allowance is one more than the limit, unless that wraps around
allowance_fits : (limit : ℕ) → limit + 1 < 2 ^ 63 → allowance limit ≡ limit + 1
allowance_fits limit h = ground arith

length-take : (n : ℕ) (bs : Body) → n ≤ length bs → length (take n bs) ≡ n
length-take zero bs h = refl
length-take (suc n) [] h = absurd (omega arith)
length-take (suc n) (b ∷ bs) h = ap suc (length-take n bs (omega arith))

measured-none :
    (limit status : ℕ) (read : Body)
    → (measured limit status read).err ≡ none
    → (length read ≤ limit) × ((measured limit status read).body ≡ read)
measured-none limit status read h = ground arith

broken_body :
    (limit status : ℕ) (body : Body) (e : Err)
    → limit + 1 < 2 ^ 63
    → (read_body limit status body (some e)).err ≢ none
unfolding read_body
broken_body limit status body e f = rw (allowance_fits limit f) λ h.
    elim (Bool-cases (leb (limit + 1) (length body))) [
      | inl far ↦
          let m = measured-none limit status (take (limit + 1) body) (rw far at h) in
          omega (arith, length-take (limit + 1) body (ground arith))
      | inr near ↦ cc (rw near at h)
    ]

whole_body :
    (limit status : ℕ) (body : Body)
    → limit + 1 < 2 ^ 63
    → (read_body limit status body none).err ≡ none
    → (length body ≤ limit) × ((read_body limit status body none).body ≡ body)
unfolding read_body
whole_body limit status body f = rw (allowance_fits limit f) λ h.
    let m = measured-none limit status (take (limit + 1) body) h in
    let same = take-short (limit + 1) body (omega arith) in
    (omega (arith, ap length same), m.1 ∙ same)

try_eq :
    (limit : ℕ) (status : ℕ) (body : Body) (broken : Option Err)
    → (try limit (answered status body broken)).err ≡ none
    → (status ≡ 200)
      × (try limit (answered status body broken) ≡ read_body limit status body broken)
unfolding try
try_eq limit status body broken h = elim (Bool-cases (status == 200)) [
  | inl e ↦ ((==_iff status 200).0 e, rw e refl)
  | inr e ↦ absurd (cc (rw e at h))
]

-- Where the limit is less than the greatest int64, a request succeeds only with status 200 and a body
-- that is read to its end and does not exceed the limit, and it returns that body whole.
pub try_sound :
    (limit : ℕ) (x : Exchange)
    → limit + 1 < 2 ^ 63
    → (try limit x).err ≡ none
    → (b : Body) × (x ≡ answered 200 b none) × (length b ≤ limit) × ((try limit x).body ≡ b)
try_sound limit (malformed e) f h = unfold try in cc
try_sound limit (unanswered e) f h = unfold try in cc
try_sound limit (answered status body none) f h =
    let (s, same) = try_eq limit status body none h in
    let (l, whole) = whole_body limit status body f (sym (ap (λ (a : Attempt). a.err) same) ∙ h) in
    (body, ap (λ n. answered n body none) s, l, ap (λ (a : Attempt). a.body) same ∙ whole)
try_sound limit (answered status body (some e)) f h =
    let (s, same) = try_eq limit status body (some e) h in
    absurd (broken_body limit status body e f (sym (ap (λ (a : Attempt). a.err) same) ∙ h))

-- Under the greatest int64 as the limit nothing is read, and an empty body is the result.
pub try_wrapped :
    (limit : ℕ) (b : Body)
    → limit + 1 ≡ 2 ^ 63
    → try limit (answered 200 b none) ≡ record { body = []; status = 200; err = none }
unfolding try read_body
try_wrapped limit b h =
    let none_read : allowance limit ≡ 0 = ground arith in
    let small : ltb limit 0 ≡ false = ground arith in rw (none_read, small) refl
