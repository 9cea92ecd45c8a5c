-- ===== src/Malloc/Segments.antt =====
-- alloc.c: the list of blocks, which lie in memory one below the other.
use machine_project.Prelude.{
  ℕ, ◌+◌, ◌≤◌, ◌<◌, ◌≡◌, refl, sym, ap, ◌∙◌, ◌⊎◌, inl, inr, List, [], ◌∷◌, Option, none, some,
  arith,
}
use machine_project.Malloc.{Block, meta_size, store}

-- A block at an address that ends at another one.
unfoldable pub IsBlock : ℕ → ℕ → Block → Type 0
IsBlock p end b = (b.ptr ≡ p + meta_size) × (p + meta_size + b.size ≡ end)

-- From `p` the list leads through the addresses `ps`; the first block ends at `end`, and each other
-- one where the block before it in the list begins.
unfoldable pub Down : (ℕ → Option Block) → ℕ → Option ℕ → List ℕ → Type 0
Down blocks end p [] = p ≡ none
Down blocks end p (q ∷ qs) =
    (p ≡ some q) × (b : Block) × (blocks q ≡ some b) × IsBlock q end b × Down blocks q b.next qs

-- The way from the head down to what ends at `end`: `fs` are the blocks on it, the last one first.
unfoldable pub Up : (ℕ → Option Block) → ℕ → Option ℕ → List ℕ → ℕ → Option ℕ → Type 0
Up blocks top head [] end p = (end ≡ top) × (p ≡ head)
Up blocks top head (f ∷ fs) end p =
    (f ≡ end)
    × (b : Block) × (blocks f ≡ some b)
    × (b.ptr ≡ f + meta_size)
    × (b.next ≡ p)
    × Up blocks top head fs (f + meta_size + b.size) (some f)

pub store-same : (blocks : ℕ → Option Block) (p : ℕ) (b : Block) → store blocks p b p ≡ some b
unfolding store
store-same blocks p b = ground arith

pub store-other :
    (blocks : ℕ → Option Block) (p : ℕ) (b : Block) (a : ℕ)
    → ¬ (a ≡ p)
    → store blocks p b a ≡ blocks a
unfolding store
store-other blocks p b a h = ground arith

pub Down-frame :
    (blocks blocks' : ℕ → Option Block) (end : ℕ) (p : Option ℕ) (qs : List ℕ)
    → ((a : ℕ) → a < end → blocks' a ≡ blocks a)
    → Down blocks end p qs
    → Down blocks' end p qs
unfolding Down IsBlock
Down-frame blocks blocks' end p [] same h = h
Down-frame blocks blocks' end p (q ∷ qs) same (e, b, at, (here, size), more) = (
  e,
  b,
  same q (omega arith) ∙ at,
  (here, size),
  Down-frame blocks blocks' q b.next qs (λ a less. same a (omega arith)) more,
)

pub Up-frame :
    (blocks blocks' : ℕ → Option Block) (top : ℕ) (head : Option ℕ) (fs : List ℕ) (end : ℕ)
    (p : Option ℕ)
    → ((a : ℕ) → end ≤ a → blocks' a ≡ blocks a)
    → Up blocks top head fs end p
    → Up blocks' top head fs end p
unfolding Up
Up-frame blocks blocks' top head [] end p same h = h
Up-frame blocks blocks' top head (f ∷ fs) end p same (e, b, at, here, next, more) = (
  e,
  b,
  same f (omega arith) ∙ at,
  here,
  next,
  Up-frame blocks blocks' top head fs (f + meta_size + b.size) (some f)
      (λ a less. same a (omega arith)) more,
)

abbrev pub head_of : List ℕ → Option ℕ
head_of [] = none
head_of (f ∷ fs) = some f

abbrev pub rest_of : List ℕ → List ℕ
rest_of [] = []
rest_of (f ∷ fs) = fs

-- `fs`, turned round, in front of `qs`.
abbrev pub turn : List ℕ → List ℕ → List ℕ
turn [] qs = qs
turn (f ∷ fs) qs = turn fs (f ∷ qs)

-- The way to a place and the list from there make up the whole list.
pub zip :
    (blocks : ℕ → Option Block) (top : ℕ) (head : Option ℕ) (fs qs : List ℕ) (end : ℕ)
    (p : Option ℕ)
    → Up blocks top head fs end p
    → Down blocks end p qs
    → Down blocks top head (turn fs qs)
unfolding Up Down IsBlock
zip blocks top head [] qs end p (e, e') h = rw (← e) (rw (← e') h)
zip blocks top head (f ∷ fs) qs end p (e, b, at, here, next, more) h =
    zip blocks top head fs (f ∷ qs) (f + meta_size + b.size) (some f) more
      (refl, b, at, (here, refl), rw e (rw next h))

pub Up-top :
    (blocks : ℕ → Option Block) (top : ℕ) (head : Option ℕ) (fs : List ℕ) (end : ℕ) (p : Option ℕ)
    → Up blocks top head fs end p
    → end ≤ top
unfolding Up
Up-top blocks top head [] end p (e, e') = omega arith
Up-top blocks top head (f ∷ fs) end p (e, b, at, here, next, more) =
    omega (arith, Up-top blocks top head fs (f + meta_size + b.size) (some f) more)

unfoldable pub IsIn : ℕ → List ℕ → Type 0
IsIn q [] = ⊥
IsIn q (x ∷ xs) = (q ≡ x) ⊎ IsIn q xs

abbrev pub size_of : Option Block → ℕ
size_of none = 0
size_of (some b) = b.size

abbrev pub mark_of : Option Block → ℕ
mark_of none = 0
mark_of (some b) = b.is_free

pub Down-IsIn :
    (blocks : ℕ → Option Block) (end : ℕ) (p : Option ℕ) (qs : List ℕ) (q : ℕ) (u : Block)
    → Down blocks end p qs
    → IsIn q qs
    → blocks q ≡ some u
    → q + meta_size + u.size ≤ end
unfolding Down IsBlock IsIn
Down-IsIn blocks end p [] q u d h at = absurd h
Down-IsIn blocks end p (x ∷ xs) q u (e, b, at_x, (here, ends), more) (inl same) at =
    let sizes = ap size_of (sym at_x ∙ ap blocks (sym same) ∙ at) in omega (arith, sizes)
Down-IsIn blocks end p (x ∷ xs) q u (e, b, at_x, (here, ends), more) (inr h) at =
    omega (arith, Down-IsIn blocks x b.next xs q u more h at)

pub Up-IsIn :
    (blocks : ℕ → Option Block) (top : ℕ) (head : Option ℕ) (fs : List ℕ) (end : ℕ) (p : Option ℕ)
    (q : ℕ)
    → Up blocks top head fs end p
    → IsIn q fs
    → end ≤ q
unfolding Up IsIn
Up-IsIn blocks top head [] end p q up h = absurd h
Up-IsIn blocks top head (f ∷ fs) end p q (e, b, at, here, next, more) (inl same) = omega arith
Up-IsIn blocks top head (f ∷ fs) end p q (e, b, at, here, next, more) (inr h) =
    omega (arith, Up-IsIn blocks top head fs (f + meta_size + b.size) (some f) q more h)

-- Whatever stands above a place, the head is not below it.
pub Up-head :
    (blocks : ℕ → Option Block) (top : ℕ) (head : Option ℕ) (f : ℕ) (fs : List ℕ) (end : ℕ)
    (p : Option ℕ)
    → Up blocks top head (f ∷ fs) end p
    → (h : ℕ) × (head ≡ some h) × (end ≤ h)
unfolding Up
Up-head blocks top head f [] end p (e, b, at, here, next, (e', e'')) = (f, sym e'', omega arith)
Up-head blocks top head f (g ∷ fs) end p (e, b, at, here, next, more) =
    let (h, is, above) = Up-head blocks top head g fs (f + meta_size + b.size) (some f) more in
    (h, is, omega arith)
