-- ===== src/Fs/Layout/Cutting.antt =====
-- The root directory of libfs/fs.c read back from the part of its bytes that a block holds.
use ecs150fs.Base.{
  ℕ, zero, suc, ◌+◌, ◌-◌, ◌*◌, ◌≤◌, ◌≡◌, refl, ap, sym, ◌∙◌, List, [], ◌∷◌, ◌++◌, arith,
}
use Prim.Native.Nat.add
use mathlib.Core.List.{append_assoc}
use ecs150fs.Base.Lists.{length, length-append, take, All}
use ecs150fs.Base.Bytes.{Bytes}
use ecs150fs.Fs.State.{RootEntry}
use ecs150fs.Fs.Layout.{store_entry, store_entries, load_entries, root_entry_size}
use ecs150fs.Fs.Layout.Entries.{FitsEntry, load_entry-store_entry, drop-store_entry}

store_entry-append :
    (e : RootEntry) (rest junk : Bytes) → store_entry e rest ++ junk ≡ store_entry e (rest ++ junk)
unfolding store_entry
store_entry-append e rest junk = simp append_assoc

length-store_entry :
    (e : RootEntry) (rest : Bytes)
    → FitsEntry e
    → length (store_entry e rest) ≡ root_entry_size + length rest
unfolding store_entry
length-store_entry e rest fits = omega (
  arith,
  length-append e.filename _,
  length-append e.padding (e.is_empty ∷ (e.unused ++ rest)),
  length-append e.unused rest,
  fits.filename,
  fits.padding,
  fits.unused,
)

pub length-store_entries :
    (es : List RootEntry)
    → All FitsEntry es
    → length (store_entries es) ≡ root_entry_size * length es
unfolding store_entries
length-store_entries [] fits = refl
length-store_entries (e ∷ es) (fit, fits) =
    omega (arith, length-store_entry e (store_entries es) fit, length-store_entries es fits)

take-append_more :
    (n m : ℕ) (xs ys : Bytes) → length xs ≡ n → take (n + m) (xs ++ ys) ≡ xs ++ take m ys
take-append_more zero m [] ys h = rw add.zero
take-append_more zero m (x ∷ xs) ys h = absurd (omega arith)
take-append_more (suc n) m [] ys h = absurd (omega arith)
take-append_more (suc n) m (x ∷ xs) ys h =
    rw add.suc (ap (◌∷◌ x) (take-append_more n m xs ys (omega arith)))

take-store_entry :
    (m : ℕ) (e : RootEntry) (rest : Bytes)
    → FitsEntry e
    → take (root_entry_size + m) (store_entry e rest) ≡ store_entry e (take m rest)
take-store_entry m e rest fits =
    ap (take (root_entry_size + m)) (sym (store_entry-append e [] rest))
    ∙ take-append_more root_entry_size m (store_entry e []) rest (length-store_entry e [] fits)
    ∙ store_entry-append e [] (take m rest)

-- The first `k` entries, if their bytes are among the first `m`.
pub take-load_entries :
    (k n m : ℕ) (es : List RootEntry) (junk : Bytes)
    → All FitsEntry es
    → k ≤ length es
    → k ≤ n
    → root_entry_size * k ≤ m
    → take k (load_entries n (take m (store_entries es) ++ junk)) ≡ take k es
unfolding load_entries store_entries
take-load_entries zero n m es junk fits in_es in_n in_m = refl
take-load_entries (suc k) n m [] junk fits in_es in_n in_m = absurd (omega arith)
take-load_entries (suc k) zero m (e ∷ es) junk fits in_es in_n in_m = absurd (omega arith)
take-load_entries (suc k) (suc n) m (e ∷ es) junk (fit, fits) in_es in_n in_m =
    let more = store_entries es in
    let left : m ≡ root_entry_size + (m - root_entry_size) = omega arith in
    let cut : take m (store_entry e more) ++ junk
        ≡ store_entry e (take (m - root_entry_size) more ++ junk) =
      ap (λ x. take x (store_entry e more) ++ junk) left
      ∙ ap (λ bytes. bytes ++ junk) (take-store_entry (m - root_entry_size) e more fit)
      ∙ store_entry-append e (take (m - root_entry_size) more) junk in
    rw (cut, load_entry-store_entry e _ fit, drop-store_entry e _ fit)
      (ap (◌∷◌ e) (
        take-load_entries k n (m - root_entry_size) es junk fits (omega arith) (omega arith)
          (omega arith)))
