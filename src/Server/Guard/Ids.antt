-- ===== src/Server/Guard/Ids.antt =====
-- The request identifiers of server/middleware.go.
use tgju_api_go.Common.{
  ℕ, ◌≤◌, Bool, true, false, [], ◌∷◌, Text, ◌||◌, ltb, any, All, ◌≡◌, ◌≢◌, ◌⊎◌, ◌↔◌, refl, arith,
  if◌then◌else◌, is_nil, byte_len,
}
use tgju_api_go.Server.Guard.{is_alphanumeric, is_poison, sanitise_request_id}

-- a letter or digit of ASCII, or one of the three marks
abbrev pub IsSafe : ℕ → Type 0
IsSafe r =
    ((0x30 ≤ r) × (r ≤ 0x39))
    ⊎ ((0x41 ≤ r) × (r ≤ 0x5A))
    ⊎ ((0x61 ≤ r) × (r ≤ 0x7A))
    ⊎ (r ≡ 0x2D)
    ⊎ (r ≡ 0x2E)
    ⊎ (r ≡ 0x5F)

-- What an identifier must be to be adopted.
pub record IsId (id : Text) : Type 0 where
  pub filled : id ≢ []
  pub short : byte_len id ≤ 64
  pub safe : All IsSafe id

is_poison_iff : (r : ℕ) → (is_poison r ≡ false) ↔ IsSafe r
unfolding is_poison is_alphanumeric
is_poison_iff r = ground arith

any-poison_iff : (s : Text) → (any is_poison s ≡ false) ↔ All IsSafe s
any-poison_iff [] = (λ h. tt, λ h. refl)
any-poison_iff (r ∷ s) =
    let (a, b) = is_poison_iff r in
    let (c, d) = any-poison_iff s in
    (
      λ h. (a (ground arith), c (ground arith)),
      λ (h, k). let e = b h in let f = d k in ground arith,
    )

cons_id : (id : Text) → id ≢ [] → is_nil id ≡ false
cons_id [] h = absurd (h refl)
cons_id (r ∷ id) h = refl

adopted : (id : Text) → IsId id → sanitise_request_id id ≡ id
unfolding sanitise_request_id
adopted id h =
    let e = cons_id id h.filled in
    let b : ltb 64 (byte_len id) ≡ false = let s = h.short in ground arith in
    let p = (any-poison_iff id).1 h.safe in rw (e, b) (rw p refl)

kept_by :
    (id : Text) (a b c : Bool)
    → is_nil id ≡ a
    → ltb 64 (byte_len id) ≡ b
    → any is_poison id ≡ c
    → (if a || b then [] else if c then [] else id) ≢ []
    → IsId id
kept_by id true b c e f p h = absurd (h refl)
kept_by id false true c e f p h = absurd (h refl)
kept_by id false false true e f p h = absurd (h refl)
kept_by id false false false e f p h = record {
  filled = h;
  short = ground arith;
  safe = (any-poison_iff id).0 p;
}

kept : (id : Text) → sanitise_request_id id ≢ [] → IsId id × (sanitise_request_id id ≡ id)
kept id h =
    let i =
      kept_by id (is_nil id) (ltb 64 (byte_len id)) (any is_poison id) refl refl refl
        (unfold sanitise_request_id in h) in
    (i, adopted id i)

-- A caller's identifier is adopted as it is exactly when it is one, and otherwise dropped.
pub sanitise_request_id_lem :
    (id : Text)
    → (IsId id → sanitise_request_id id ≡ id)
      × ((sanitise_request_id id ≢ []) → IsId id × (sanitise_request_id id ≡ id))
sanitise_request_id_lem id = (λ h. adopted id h, λ h. kept id h)
