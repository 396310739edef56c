-- ===== src/Fs/Mount/Overlapping.antt =====
-- The loop of fs_mount of libfs/fs.c over a FAT of several blocks, which it reads to addresses one
-- entry apart.
use ecs150fs.Base.{
  ℕ, zero, suc, ◌+◌, ◌*◌, ◌≤◌, ◌<◌, ◌≡◌, refl, ◌∙◌, ap, sym, false, List, [], ◌∷◌, ◌++◌, arith, ltb,
}
use mathlib.Core.List.{append_assoc}
use Prim.Native.Nat.add
use ecs150fs.Base.Lists.{All, length, take, drop, drop_all, length-drop, length-append, length-take}
use ecs150fs.Base.Bytes.{Bytes}
use ecs150fs.Disk.Posix.{Host, HostLaws, Whole}
use ecs150fs.Disk.{Disk, block_size, block_read}
use ecs150fs.Disk.Blocks.{Backed, block_at, length-block_at}
use ecs150fs.Disk.Reading.{block_read-block, Backed-block_read, block_at-block_read}
use ecs150fs.Fs.State.{returns}
use ecs150fs.Fs.Layout.{store_words}
use ecs150fs.Fs.Layout.RoundTrip.{drop-append, take-append, load_words-store_words}
use ecs150fs.Fs.Mount.{read_fat, entries}
use ecs150fs.Fs.Mount.Persisting.{ltb-false, length-store_words}
use ecs150fs.Fs.Mount.Loading.{Serves}

-- Of each block but the last, its first entry; then the last block.
abbrev pub overlapped : List ℕ → List (List ℕ) → List ℕ
overlapped f [] = f
overlapped f (g ∷ gs) = take 1 f ++ overlapped g gs

-- What the loop makes of the array from the current entry on.
abbrev laid : List (List ℕ) → List ℕ → List ℕ
laid [] rest = rest
laid (f ∷ fs) rest = let next = f ++ drop entries rest in take 1 next ++ laid fs (drop 1 next)

drop-drop : (n m : ℕ) (xs : List ℕ) → drop m (drop n xs) ≡ drop (n + m) xs
drop-drop zero m xs = rw add.zero
drop-drop (suc n) m [] = drop_all m [] (omega arith) ∙ sym (drop_all (suc n + m) [] (omega arith))
drop-drop (suc n) m (x ∷ xs) = rw add.suc (drop-drop n m xs)

-- The last block ends where it would in an array that is not overwritten.
drop-shifted :
    (k : ℕ) (f rest : List ℕ)
    → suc (length f) ≡ entries
    → drop (entries + k) (f ++ drop entries rest) ≡ drop (entries + suc k) rest
drop-shifted k f rest size =
    ap (λ n. drop n (f ++ drop entries rest)) (omega (arith, size))
    ∙ drop-append (length f) (suc k) f (drop entries rest) refl
    ∙ drop-drop entries (suc k) rest

laid-overlapped :
    (f : List ℕ) (fs : List (List ℕ)) (rest : List ℕ)
    → All (λ g. length g ≡ entries) (f ∷ fs)
    → laid (f ∷ fs) rest ≡ overlapped f fs ++ drop (entries + length fs) rest
laid-overlapped [] fs rest (size, _) = absurd (omega arith)
laid-overlapped (x ∷ f) [] rest sizes = refl
laid-overlapped (x ∷ f) (g ∷ fs) rest (size, sizes) = ap (◌∷◌ x) (
    laid-overlapped g fs (f ++ drop entries rest) sizes
    ∙ ap (◌++◌ (overlapped g fs)) (drop-shifted (length fs) f rest size))

-- The blocks of the disk from block `1 + i` on, as arrays of entries.
abbrev pub HasFat :
    {W : Type 0} {os : Host W} → HostLaws os → Disk → W → (i : ℕ) → List (List ℕ) → Type 0
HasFat laws d w i [] = Unit
HasFat laws d w i (f ∷ fs) =
    (block_at laws d w (1 + i) ≡ store_words f) × HasFat laws d w (i + 1) fs

take-drop : (xs : List ℕ) → take 1 xs ++ drop 1 xs ≡ xs
take-drop [] = refl
take-drop (x ∷ xs) = refl

module _ {W : Type 0} {os : Host W} (laws : HostLaws os) (d : Disk) (serves : Serves os d) where
  HasFat-block_read :
      (fs : List (List ℕ)) (i b : ℕ) (buf : Bytes) (w : W)
      → HasFat laws d w i fs
      → HasFat laws d (block_read os d b buf w).2 i fs
  HasFat-block_read [] i b buf w has = tt
  HasFat-block_read (f ∷ fs) i b buf w (at, has) =
      (block_at-block_read laws d b w buf (1 + i) ∙ at, HasFat-block_read fs (i + 1) b buf w has)

  -- One round of the loop.
  read_fat-round :
      (rounds i : ℕ) (f pre rest : List ℕ) (w : W)
      → Whole laws
      → Backed laws d w
      → block_at laws d w (1 + i) ≡ store_words f
      → length pre ≡ i
      → 1 + i < d.bcount
      → entries ≤ length rest
      → (w' : W) × (buf : Bytes) × (w' ≡ (block_read os d (1 + i) buf w).2)
        × (read_fat os (suc rounds) i d (pre ++ rest) w
            ≡ read_fat os rounds (i + 1) d (pre ++ (f ++ drop entries rest)) w')
  unfolding read_fat
  read_fat-round rounds i f pre rest w long k at size inside room =
      let buf = store_words (take entries (drop i (pre ++ rest))) in
      let all = length-append pre rest in
      let whole : length buf ≡ block_size =
        length-store_words (take entries (drop i (pre ++ rest)))
        ∙ omega (arith, length-take entries (drop i (pre ++ rest)), length-drop i (pre ++ rest)) in
      let got =
        block_read-block laws d (1 + i) w buf long k whole (serves.reads (1 + i) buf w inside)
        ∙ at in
      let bytes : length (store_words f) ≡ block_size =
        ap length (sym at) ∙ length-block_at laws d (1 + i) w in
      let fits : ltb (length (drop i (pre ++ rest)) * 2) (length (store_words f)) ≡ false =
        ltb-false _ _ (omega (arith, length-drop i (pre ++ rest), bytes, all)) in
      (
        (block_read os d (1 + i) buf w).2,
        buf,
        refl,
        rw
            (
              read_fat,
              got,
              fits,
              got,
              load_words-store_words f,
              take-append i pre rest size,
              drop-append i entries pre rest size,
            )
            refl,
      )

  read_fat-laid :
      (fs : List (List ℕ)) (i : ℕ) (pre rest : List ℕ) (w : W)
      → Whole laws
      → Backed laws d w
      → HasFat laws d w i fs
      → All (λ g. length g ≡ entries) fs
      → length pre ≡ i
      → i + length fs < d.bcount
      → entries + length fs ≤ suc (length rest)
      → (w' : W) × (read_fat os (length fs) i d (pre ++ rest) w ≡ returns (pre ++ laid fs rest, w'))
  unfolding read_fat
  read_fat-laid [] i pre rest w long k has sizes size inside room = (w, refl)
  read_fat-laid (f ∷ fs) i pre rest w long k (at, has) (len, sizes) size inside room =
      let next = f ++ drop entries rest in
      let (w1, buf, e, round) =
        read_fat-round (length fs) i f pre rest w long k at size (omega arith) (omega arith) in
      let halves : pre ++ next ≡ (pre ++ take 1 next) ++ drop 1 next =
        ap (◌++◌ pre) (sym (take-drop next)) ∙ sym (append_assoc pre (take 1 next) (drop 1 next)) in
      let measured = length-append f (drop entries rest) in
      let shorter = length-drop entries rest in
      let (w', more) =
        read_fat-laid fs (i + 1) (pre ++ take 1 next) (drop 1 next) w1 long
          (rw e (Backed-block_read laws d (1 + i) w buf k))
          (rw e (HasFat-block_read fs (i + 1) (1 + i) buf w has)) sizes
          (omega (arith, size, length-append pre (take 1 next), length-take 1 next, len, measured))
          (omega arith) (omega (arith, length-drop 1 next, measured, shorter, len)) in
      (
        w',
        round
            ∙ ap (λ x. read_fat os (length fs) (i + 1) d x w1) halves
            ∙ more
            ∙ ap (λ x. returns (x, w')) (append_assoc pre (take 1 next) (laid fs (drop 1 next))),
      )

  -- On an open disk whose file holds all its blocks and whose host's transfers neither fail nor are
  -- short, for a FAT of one or more blocks of 2048 entries, all on the disk, and an array with room
  -- for what the loop writes: the loop of fs_mount returns, and has overwritten its array with the
  -- first entry of each block but the last, followed by the last block; behind that the array is as
  -- it was.
  pub read_fat-overlapped :
      (f : List ℕ) (fs : List (List ℕ)) (fat : List ℕ) (w : W)
      → Whole laws
      → Backed laws d w
      → HasFat laws d w 0 (f ∷ fs)
      → All (λ g. length g ≡ entries) (f ∷ fs)
      → 1 + length fs < d.bcount
      → entries + length fs ≤ length fat
      → (w' : W) × (read_fat os (length (f ∷ fs)) 0 d fat w
          ≡ returns (overlapped f fs ++ drop (entries + length fs) fat, w'))
  read_fat-overlapped f fs fat w long k has sizes inside room =
      let (w', e) =
        read_fat-laid (f ∷ fs) 0 [] fat w long k has sizes refl (omega arith) (omega arith) in
      (w', e ∙ ap (λ x. returns (x, w')) (laid-overlapped f fs fat sizes))
