-- ===== src/Fs/Directory/Chain.antt =====
-- The walk of fs_delete over the FAT, against the chain of a file as a relation.
use ecs150fs.Base.{
  ℕ, ◌^◌, ◌≡◌, refl, Bool, false, ◌||◌, some, List, [], ◌∷◌, arith, ◌==◌, if◌then◌else◌, ==_iff,
  ◌∙◌, Bool-cases, inl, inr,
}
use ecs150fs.Base.Int.{ℤ, pos, signed}
use ecs150fs.Base.Lists.{
  length, get_elem?, set, get_elem?-set_self, get_elem?-set_ne, lt_of_get_elem?-some,
}
use ecs150fs.Fs.State.{returns}
use ecs150fs.Fs.Directory.{free_chain}

abbrev pub member : ℕ → List ℕ → Bool
member i [] = false
member i (j ∷ js) = i == j || member i js

-- Following the FAT from an index visits these entries, each for the first time.
pub data Chain (fat : List ℕ) : ℤ → List ℕ → Type 0 where
  stop : {c : ℤ} → Chain fat c []
  link :
      {i n : ℕ} {rest : List ℕ}
      → get_elem? fat i ≡ some n
      → member i rest ≡ false
      → Chain fat (signed (2 ^ 16) n) rest
      → Chain fat (pos i) (i ∷ rest)

-- The FAT with these entries free.
abbrev pub clear : List ℕ → List ℕ → List ℕ
clear [] fat = fat
clear (i ∷ rest) fat = clear rest (set fat i 0)

-- A write to an entry off the chain leaves the chain.
pub Chain-set :
    {fat : List ℕ} {c : ℤ} {blocks : List ℕ} (j v : ℕ)
    → Chain fat c blocks
    → member j blocks ≡ false
    → Chain (set fat j v) c blocks
Chain-set j v stop h = stop
Chain-set {fat} j v (link {i} at new rest) h =
    link (get_elem?-set_ne fat j i v (ground arith) ∙ at) new (Chain-set j v rest (ground arith))

unlink :
    {fat : List ℕ} {c : ℤ} {i : ℕ} {rest : List ℕ}
    → Chain fat c (i ∷ rest)
    → (n : ℕ) × (c ≡ pos i)
      × (get_elem? fat i ≡ some n)
      × (member i rest ≡ false)
      × Chain fat (signed (2 ^ 16) n) rest
unlink (link {n} at new rest) = (n, refl, at, new, rest)

-- A walk of as many rounds as the chain has entries ends well, with just those entries freed.
pub free_chain-clear :
    (blocks fat : List ℕ) {c : ℤ}
    → Chain fat c blocks
    → free_chain (length blocks) c fat ≡ returns (clear blocks fat)
unfolding free_chain
free_chain-clear [] fat chain = refl
free_chain-clear (i ∷ rest) fat chain =
    let (n, e, at, new, more) = unlink chain in
    rw (e, free_chain, at) (free_chain-clear rest (set fat i 0) (Chain-set i 0 more new))

-- Clearing a chain zeroes its entries and no other.
pub get_elem?-clear :
    (blocks fat : List ℕ) (j : ℕ) {c : ℤ}
    → Chain fat c blocks
    → get_elem? (clear blocks fat) j ≡ (if member j blocks then some 0 else get_elem? fat j)
get_elem?-clear [] fat j chain = refl
get_elem?-clear (i ∷ rest) fat j chain =
    let (n, e, at, new, more) = unlink chain in
    get_elem?-clear rest (set fat i 0) j (Chain-set i 0 more new) ∙ elim (Bool-cases (j == i)) [
      | inl y ↦ rw (
        (==_iff j i).0 y,
        (==_iff i i).1 refl,
        get_elem?-set_self fat i 0 (lt_of_get_elem?-some fat i at),
        new,
      )
      | inr d ↦ rw (d, get_elem?-set_ne fat i j 0 (λ q. ground arith))
    ]
