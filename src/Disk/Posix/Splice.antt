-- ===== src/Disk/Posix/Splice.antt =====
-- What `splice` does to the bytes of a file, inside the range that it writes and outside.
use mathlib.Core.Path.{ap₂}
use ecs150fs.Base.{ℕ, zero, suc, ◌+◌, ◌≤◌, ◌<◌, ◌≡◌, refl, ◌⊎◌, ap, ◌++◌, ◌∙◌, [], ◌∷◌, arith}
use ecs150fs.Base.Lists.{length, drop}
use ecs150fs.Base.Bytes.{Bytes}
use ecs150fs.Disk.Posix.{bytes_from, splice}

bytes_from-congr :
    (f g : ℕ → ℕ) (a n : ℕ)
    → ((i : ℕ) → a ≤ i → i < a + n → f i ≡ g i)
    → bytes_from f a n ≡ bytes_from g a n
unfolding bytes_from
bytes_from-congr f g a zero h = refl
bytes_from-congr f g a (suc n) h =
    ap₂ ◌∷◌ (h a (omega arith) (omega arith))
      (bytes_from-congr f g (suc a) n (λ i p q. h i (omega arith) (omega arith)))

pub length-bytes_from : (f : ℕ → ℕ) (a n : ℕ) → length (bytes_from f a n) ≡ n
unfolding bytes_from
length-bytes_from f a zero = refl
length-bytes_from f a (suc n) = ap suc (length-bytes_from f (suc a) n)

splice_outside :
    (f : ℕ → ℕ) (off : ℕ) (buf : Bytes) (a : ℕ)
    → (a < off) ⊎ (off + length buf ≤ a)
    → splice f off buf a ≡ f a
splice_outside f off [] a h = refl
splice_outside f off (b ∷ buf) a h = ground (arith, splice_outside f (suc off) buf a)

-- The bytes that were written, then what the file has behind them.
pub bytes_from-splice_front :
    (f : ℕ → ℕ) (off : ℕ) (buf : Bytes) (m : ℕ)
    → length buf ≤ m
    → bytes_from (splice f off buf) off m ≡ buf ++ drop (length buf) (bytes_from f off m)
unfolding bytes_from
bytes_from-splice_front f off [] m h = refl
bytes_from-splice_front f off (b ∷ buf) zero h = absurd (omega arith)
bytes_from-splice_front f off (b ∷ buf) (suc m) h = ap₂ ◌∷◌ (ground arith) (
    bytes_from-congr _ (splice f (suc off) buf) (suc off) m (λ i p q. ground arith)
    ∙ bytes_from-splice_front f (suc off) buf m (omega arith))

pub bytes_from-splice_self :
    (f : ℕ → ℕ) (off : ℕ) (buf : Bytes) → bytes_from (splice f off buf) off (length buf) ≡ buf
unfolding bytes_from
bytes_from-splice_self f off [] = refl
bytes_from-splice_self f off (b ∷ buf) = ap₂ ◌∷◌ (ground arith) (
    bytes_from-congr _ (splice f (suc off) buf) (suc off) (length buf) (λ i p q. ground arith)
    ∙ bytes_from-splice_self f (suc off) buf)

pub bytes_from-splice_apart :
    (f : ℕ → ℕ) (off : ℕ) (buf : Bytes) (a n : ℕ)
    → (a + n ≤ off) ⊎ (off + length buf ≤ a)
    → bytes_from (splice f off buf) a n ≡ bytes_from f a n
bytes_from-splice_apart f off buf a n h =
    bytes_from-congr _ f a n (λ i p q. splice_outside f off buf i (omega arith))
