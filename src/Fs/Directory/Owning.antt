-- ===== src/Fs/Directory/Owning.antt =====
-- The blocks of the files in the FAT of libfs/fs.c: every file has a chain of its own, which
-- fs_create and fs_delete keep.
use ecs150fs.Base.{
  ℕ, ◌≡◌, refl, true, false, ◌||◌, some, List, [], ◌∷◌, ◌++◌, arith, ==_iff, Bool-cases,
  Option-cases, inl, inr,
}
use ecs150fs.Base.Int.{ℤ}
use ecs150fs.Base.Lists.{length}
use ecs150fs.Base.Bytes.{Bytes, same_string}
use ecs150fs.Fs.State.{RootEntry}
use ecs150fs.Fs.Directory.{blocks_of, reset_named, fill_free, empty}
use ecs150fs.Fs.Directory.Chain.{Chain, stop, clear, member, Chain-set}

-- No entry of the FAT is in both lists.
abbrev pub Apart : List ℕ → List ℕ → Type 0
Apart xs ys = (j : ℕ) → member j xs ≡ true → member j ys ≡ false

abbrev pub Within : List ℕ → List ℕ → Type 0
Within xs ys = (j : ℕ) → member j xs ≡ true → member j ys ≡ true

-- Every file of the directory has a chain in the FAT, of as many entries as it has whole blocks, and
-- no entry is in the chains of two files; `used` are the entries of all chains.
pub data Owns (fat : List ℕ) : List RootEntry → (used : List ℕ) → Type 0 where
  no_file : Owns fat [] []
  file :
      {e : RootEntry} {es : List RootEntry} {blocks used : List ℕ}
      → Chain fat e.file_first_index blocks
      → length blocks ≡ blocks_of e
      → Apart blocks used
      → Owns fat es used
      → Owns fat (e ∷ es) (blocks ++ used)

-- A directory with some files made empty.
pub data Emptied : List RootEntry → List RootEntry → Type 0 where
  done : Emptied [] []
  kept : {e : RootEntry} {es es' : List RootEntry} → Emptied es es' → Emptied (e ∷ es) (e ∷ es')
  emptied :
      {e e' : RootEntry} {es es' : List RootEntry}
      → blocks_of e' ≡ 0
      → Emptied es es'
      → Emptied (e ∷ es) (e' ∷ es')

member-append : (j : ℕ) (xs ys : List ℕ) → member j (xs ++ ys) ≡ (member j xs || member j ys)
member-append j [] ys = refl
member-append j (x ∷ xs) ys = ground (arith, member-append j xs ys)

owns_nothing :
    {fat used : List ℕ} {e : RootEntry} {es : List RootEntry}
    → blocks_of e ≡ 0
    → Owns fat es used
    → Owns fat (e ∷ es) used
owns_nothing none_of o = file {blocks = []} stop (ground arith) (λ j h. ground arith) o

-- Emptied files give up their chains.
pub Owns-Emptied :
    {fat used : List ℕ} {es es' : List RootEntry}
    → Owns fat es used
    → Emptied es es'
    → (used' : List ℕ) × Owns fat es' used' × Within used' used
Owns-Emptied no_file done = ([], no_file, λ j h. h)
Owns-Emptied (file {blocks} {used} chain len apart o) (kept k) =
    let (used', o', within) = Owns-Emptied o k in
    (
      blocks ++ used',
      file chain len (λ j h. ground (arith, apart j h, within j)) o',
      λ j h. ground (arith, member-append j blocks used, member-append j blocks used', within j),
    )
Owns-Emptied (file {blocks} {used} chain len apart o) (emptied z k) =
    let (used', o', within) = Owns-Emptied o k in
    (used', owns_nothing z o', λ j h. ground (arith, member-append j blocks used, within j h))

Emptied-refl : (es : List RootEntry) → Emptied es es
Emptied-refl [] = done
Emptied-refl (e ∷ es) = kept (Emptied-refl es)

pub fill_free-Emptied : (f : Bytes) (es : List RootEntry) → Emptied es (fill_free f es).1
unfolding fill_free
fill_free-Emptied f [] = done
fill_free-Emptied f (e ∷ es) = elim (Bool-cases (empty e)) [
  | inl y ↦ rw y (emptied refl (fill_free-Emptied f es))
  | inr n ↦ rw n (kept (fill_free-Emptied f es))
]

reset_named-Emptied : (f : Bytes) (es : List RootEntry) → Emptied es (reset_named f es).1
unfolding reset_named
reset_named-Emptied f [] = done
reset_named-Emptied f (e ∷ es) = elim (Bool-cases (same_string f e.filename)) [
  | inl y ↦ rw y (emptied refl (reset_named-Emptied f es))
  | inr n ↦ rw n (kept (reset_named-Emptied f es))
]

-- Clearing entries off a chain leaves the chain.
Chain-clear :
    (xs : List ℕ) {fat blocks : List ℕ} {c : ℤ}
    → Chain fat c blocks
    → Apart xs blocks
    → Chain (clear xs fat) c blocks
Chain-clear [] chain apart = chain
Chain-clear (x ∷ xs) {blocks} chain apart =
    Chain-clear xs (Chain-set x 0 chain (apart x (ground (arith, (==_iff x x).1 refl))))
      (λ j h. apart j (ground arith))

pub Owns-clear :
    (xs : List ℕ) {fat used : List ℕ} {es : List RootEntry}
    → Owns fat es used
    → Apart xs used
    → Owns (clear xs fat) es used
Owns-clear xs no_file apart = no_file
Owns-clear xs (file {blocks} {used} chain len new o) apart =
    file (Chain-clear xs chain (λ j h. ground (arith, apart j h, member-append j blocks used))) len
      new (Owns-clear xs o (λ j h. ground (arith, apart j h, member-append j blocks used)))

-- What is known of the file that fs_delete looks up: a chain, apart from those of the other files.
pub record Found (fat used : List ℕ) (e : RootEntry) (rest : List RootEntry) : Type 0 where
  pub blocks : List ℕ
  pub others : List ℕ
  pub chain : Chain fat e.file_first_index blocks
  pub size : length blocks ≡ blocks_of e
  pub own : Within blocks used
  pub within : Within others used
  pub apart : Apart blocks others
  pub owns : Owns fat rest others

-- The file behind one that is made empty.
Found-emptied :
    {fat used : List ℕ} {e x' : RootEntry} {es : List RootEntry} (blocks : List ℕ)
    → blocks_of x' ≡ 0
    → Found fat used e es
    → Found fat (blocks ++ used) e (x' ∷ es)
Found-emptied {used} blocks z g = record {
  blocks = g.blocks;
  others = g.others;
  chain = g.chain;
  size = g.size;
  own = λ j h. ground (arith, member-append j blocks used, g.own j h);
  within = λ j h. ground (arith, member-append j blocks used, g.within j h);
  apart = g.apart;
  owns = owns_nothing z g.owns;
}

module _ {fat blocks used : List ℕ} {x : RootEntry} {es : List RootEntry}
    (chain : Chain fat x.file_first_index blocks) (len : length blocks ≡ blocks_of x)
    (new : Apart blocks used) where
  -- The file behind one that is kept.
  Found-kept : {e : RootEntry} → Found fat used e es → Found fat (blocks ++ used) e (x ∷ es)
  Found-kept g = record {
    blocks = g.blocks;
    others = blocks ++ g.others;
    chain = g.chain;
    size = g.size;
    own = λ j h. ground (arith, member-append j blocks used, g.own j h);
    within = λ j h.
        ground (arith, member-append j blocks used, member-append j blocks g.others, g.within j);
    apart = λ j h. ground (arith, member-append j blocks g.others, new j, g.own j h, g.apart j h);
    owns = file chain len (λ j h. ground (arith, new j h, g.within j)) g.owns;
  }

  -- The file itself, which is made empty.
  Found-here :
      {x' : RootEntry} {es' : List RootEntry}
      → blocks_of x' ≡ 0
      → Owns fat es used
      → Emptied es es'
      → Found fat (blocks ++ used) x (x' ∷ es')
  Found-here z o k =
      let (others, o', within) = Owns-Emptied o k in
      record {
        blocks = blocks;
        others = others;
        chain = chain;
        size = len;
        own = λ j h. ground (arith, member-append j blocks used);
        within = λ j h. ground (arith, member-append j blocks used, within j h);
        apart = λ j h. ground (arith, new j h, within j);
        owns = owns_nothing z o';
      }

pub reset_named-Found :
    (f : Bytes) {fat used : List ℕ} {es : List RootEntry} {e : RootEntry}
    → Owns fat es used
    → (reset_named f es).0 ≡ some e
    → Found fat used e (reset_named f es).1
unfolding reset_named
reset_named-Found f no_file h = cc
reset_named-Found f {e} (file {e = x} {es} {blocks} {used} chain len new o) h =
    elim (Bool-cases (same_string f x.filename)) [
      | inl y ↦ rw y (elim (Option-cases (reset_named f es).0) [
        | inl nobody ↦
            let this : x ≡ e = cc (rw (y, nobody) at h) in
            rw (← this) (Found-here chain len new refl o (reset_named-Emptied f es))
        | inr (l, later) ↦
            let this : l ≡ e = cc (rw (y, later) at h) in
            Found-emptied blocks refl (reset_named-Found f o (rw (later, this)))
      ])
      | inr n ↦ rw n (Found-kept chain len new (reset_named-Found f o (rw n at h)))
    ]
