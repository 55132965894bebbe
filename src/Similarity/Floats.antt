-- ===== src/Similarity/Floats.antt =====
-- What project/oracle/pkg/similarity/semantic.go does with float32 numbers, as an interface, and
-- CosineSimilarity.
use lab.Base.{ℕ, Bool, List, ◌∷◌, length, nat_beq, if◌then◌else◌, ◌||◌}

-- float32 with math.Sqrt on the way through float64. Nothing is assumed of the operations.
pub record Float32 (F : Type 0) : Type 0 where
  pub zero : F
  pub one : F
  pub plus : F → F → F
  pub times : F → F → F
  pub over : F → F → F
  pub sqrt : F → F
  pub of_count : ℕ → F
  pub is_zero : F → Bool
  pub at_least : F → F → Bool
  pub above : F → F → Bool

module _ {F : Type 0} (fl : Float32 F) where
  -- The loop of CosineSimilarity over two vectors of one length: the product and the two norms.
  unfoldable pub dot_products : List F → List F → F → F → F → F × F × F
  dot_products (x ∷ a) (y ∷ b) product norm_a norm_b =
      dot_products a b (fl.plus product (fl.times x y)) (fl.plus norm_a (fl.times x x))
        (fl.plus norm_b (fl.times y y))
  dot_products _ _ product norm_a norm_b = (product, norm_a, norm_b)

  -- CosineSimilarity
  unfoldable pub cosine_similarity : List F → List F → F
  unfolding dot_products
  cosine_similarity a b =
      let sums = dot_products a b fl.zero fl.zero fl.zero in
      if nat_beq (length a) (length b)
      then (if fl.is_zero (sums.1) || fl.is_zero (sums.2)
          then fl.zero
          else fl.over sums.0 (fl.times (fl.sqrt sums.1) (fl.sqrt sums.2)))
      else fl.zero
