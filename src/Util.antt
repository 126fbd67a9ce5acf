-- ===== src/Util.antt =====
-- src/util.rs: small helpers of the socket.
use rfs_utp.Common.{
  sym, ◌∙◌, >>=-assoc, refl, [], ◌∷◌, ◌++◌, Option, some, none, Result, ok, panic, ◌>>=◌, ℕ, ◌+◌,
  ◌-◌, ◌*◌, ◌<◌, ◌≡◌, arith, Bool, ltb, if◌then◌else◌, List, get_or, ◌⊎◌,
}

-- `abs_diff`, over a type's order and subtraction.
unfoldable pub abs_diff {ℓ κ} : {T : Type ℓ} {U : Type κ} → (T → T → Bool) → (T → T → U) → T → T → U
abs_diff gt sub a b = if gt a b then sub a b else sub b a

-- `generate_sequential_identifiers`, from the random u16.
unfoldable pub generate_sequential_identifiers : ℕ → ℕ × ℕ
generate_sequential_identifiers id = if ltb (id + 1) 65536 then (id, id + 1) else (id - 1, id)

-- `generate_u16_from_uuid_v4`, from the bytes of the random UUID: its first two, big-endian.
unfoldable pub generate_u16_from_uuid_v4 : List ℕ → ℕ
generate_u16_from_uuid_v4 bytes = get_or bytes 0 0 * 256 + get_or bytes 1 0

-- The operations of f64 that `ewma` uses, on a type of floating-point numbers.
pub record Float {ℓ} (F : Type ℓ) : Type ℓ where
  pub zero_ : F
  pub one_ : F
  pub add : F → F → F
  pub sub : F → F → F
  pub mul : F → F → F

-- `Option::unwrap`
abbrev pub unwrap_option {ℓ κ} : {E : Type ℓ} {A : Type κ} → Option A → Result E A
unwrap_option (some a) = ok a
unwrap_option none = panic

module _ {ℓ κ μ} {E : Type ℓ} {F : Type κ} {T : Type μ} (f : Float F) (to_f64 : T → Option F)
    (alpha : F) where
  -- The fold of `ewma`, which unwraps each sample on its turn.
  unfoldable pub ewma_fold : F → List T → Result E F
  ewma_fold avg [] = ok avg
  ewma_fold avg (v ∷ samples) = unwrap_option (to_f64 v) >>= λ sample.
      ewma_fold (f.add (f.mul alpha sample) (f.mul (f.sub f.one_ alpha) avg)) samples

  -- `ewma`
  unfoldable pub ewma : List T → Result E F
  ewma [] = ewma_fold f.zero_ []
  ewma (v ∷ samples) = unwrap_option (to_f64 v) >>= λ first. ewma_fold first samples

  ewma_fold-step :
      (avg : F) (samples : List T) (v : T)
      → ewma_fold avg (samples ++ (v ∷ []))
        ≡ (ewma_fold avg samples >>= λ past. ewma_fold past (v ∷ []))
  unfolding ewma_fold
  ewma_fold-step avg [] v = refl
  ewma_fold-step avg (w ∷ samples) v =
      (λ i. unwrap_option (to_f64 w) >>= λ sample.
      ewma_fold-step (f.add (f.mul alpha sample) (f.mul (f.sub f.one_ alpha) avg)) samples v i)
      ∙ sym (>>=-assoc (unwrap_option (to_f64 w)) _ _)

  -- The average over a first sample and more is updated by a further sample: the average so far is
  -- discounted by 1 - alpha and the sample enters with alpha. A sample without a value panics.
  pub ewma-step :
      (v : T) (samples : List T) (last : T)
      → ewma (v ∷ samples ++ (last ∷ [])) ≡ (
          ewma (v ∷ samples) >>= λ past. unwrap_option (to_f64 last) >>= λ sample.
          ok (f.add (f.mul alpha sample) (f.mul (f.sub f.one_ alpha) past)))
  unfolding ewma ewma_fold
  ewma-step v samples last =
      (λ i. unwrap_option (to_f64 v) >>= λ first. ewma_fold-step first samples last i)
      ∙ sym (>>=-assoc (unwrap_option (to_f64 v)) _ _)

-- The two identifiers are consecutive u16 values, also at the largest random value.
pub identifiers_consecutive :
    (id : ℕ)
    → id < 65536
    → let (recv, send) = generate_sequential_identifiers id in
      (send ≡ recv + 1) × (send < 65536) × ((recv ≡ id) ⊎ (send ≡ id))
unfolding generate_sequential_identifiers
identifiers_consecutive id h = ground arith
