-- ===== src/Buddy/Serve.antt =====
-- Any sequence of calls of the allocator, from the state that `main` builds.
use mathlib.Core.Option as Option
use osc_2026_exercise.Base.{
  ℕ, ◌+◌, ◌*◌, ◌^◌, ◌≤◌, ◌≡◌, ◌<◌, suc, ap, sym, ◌∙◌, subst, inl, inr, refl, arith, ◌==◌,
  Bool-cases, ltb, List, [], ◌∷◌, Option, none, some,
}
use osc_2026_exercise.Paging.{◌>>=◌}
use osc_2026_exercise.Buddy.{Buddy, max_order, num_pages, boot, alloc_pages, free_pages}
use osc_2026_exercise.Buddy.Partition.{In}
use osc_2026_exercise.Buddy.State.{Free, Used, IsBuddy}
use osc_2026_exercise.Buddy.Alloc.{alloc_pages-Allocates}
use osc_2026_exercise.Buddy.Free.{free_pages-Frees}
use osc_2026_exercise.Buddy.Boot.{boot-IsBuddy, boot-Free}
use osc_2026_exercise.Buddy.Coalesced.{IsCoalesced}
use osc_2026_exercise.Buddy.Drained.{drained, block-Free}

pub data Request : Type 0 where
  alloc : (order : ℕ) → Request
  free : (page : Option ℕ) → Request

unfoldable pub call : Request → Buddy → Option Buddy
call (alloc order) s = alloc_pages order s >>= λ (p, s'). some s'
call (free page) s = free_pages page s

unfoldable pub calls : List Request → Buddy → Option Buddy
calls [] s = some s
calls (r ∷ rs) s = call r s >>= λ s'. calls rs s'

-- The order is an `int`, as the code takes it for one.
abbrev HasOrder : Request → Type 0
HasOrder (alloc order) = order < 2 ^ 31
HasOrder (free page) = Unit

-- And a page that is given back is one of `mem_map`.
abbrev pub IsRequest : Request → Type 0
IsRequest (alloc order) = order < 2 ^ 31
IsRequest (free none) = Unit
IsRequest (free (some p)) = p < num_pages

abbrev pub AreRequests : List Request → Type 0
AreRequests [] = Unit
AreRequests (r ∷ rs) = IsRequest r × AreRequests rs

abbrev HaveOrders : List Request → Type 0
HaveOrders [] = Unit
HaveOrders (r ∷ rs) = HasOrder r × HaveOrders rs

AreRequests-HaveOrders : (rs : List Request) → AreRequests rs → HaveOrders rs
AreRequests-HaveOrders [] h = tt
AreRequests-HaveOrders (alloc order ∷ rs) (h, hs) = (h, AreRequests-HaveOrders rs hs)
AreRequests-HaveOrders (free page ∷ rs) (h, hs) = (tt, AreRequests-HaveOrders rs hs)

-- A call that returns has such an order.
bind-some :
    (o : Option Buddy) (f : Buddy → Option Buddy) (t : Buddy)
    → (o >>= f) ≡ some t
    → (u : Buddy) × (o ≡ some u) × (f u ≡ some t)
bind-some none f t e = absurd (ground arith)
bind-some (some u) f t e = (u, refl, e)

call-HasOrder : (r : Request) (s s' : Buddy) → call r s ≡ some s' → HasOrder r
unfolding call alloc_pages
call-HasOrder (alloc order) s s' e = elim (Bool-cases (ltb order (2 ^ 31))) [
  | inl is_int ↦ ground arith
  | inr large ↦ let bad : none ≡ some s' = rw large at e in absurd (ground arith)
]
call-HasOrder (free page) s s' e = tt

calls-HaveOrders : (rs : List Request) (s s' : Buddy) → calls rs s ≡ some s' → HaveOrders rs
unfolding calls
calls-HaveOrders [] s s' e = tt
calls-HaveOrders (r ∷ rs) s s' e =
    let (u, ran, later) = bind-some (call r s) (λ t. calls rs t) s' e in
    (call-HasOrder r s u ran, calls-HaveOrders rs u s' later)

module _ (n c : ℕ) (whole : n ≡ c * 2 ^ max_order) where
  call-IsBuddy :
      (r : Request) (s : Buddy)
      → HasOrder r
      → IsBuddy n s
      → (s' : Buddy) × (call r s ≡ some s') × IsBuddy n s' × (IsCoalesced s → IsCoalesced s')
  unfolding call free_pages
  call-IsBuddy (alloc order) s is_int h = elim (alloc_pages-Allocates n order s is_int h) [
    | inl (none_left, empty) ↦ (s, rw none_left refl, h, λ before. before)
    | inr (p, s', ran, is, used, idle, kept, coalesced) ↦ (s', rw ran refl, is, coalesced)
  ]
  call-IsBuddy (free none) s is_int h = (s, refl, h, λ before. before)
  call-IsBuddy (free (some p)) s is_int h = elim (Bool-cases (s.refcount p == 0)) [
    | inl idle ↦ (s, rw idle refl, h, λ before. before)
    | inr used ↦
        let (s', ran, is, done, kept, coalesced) =
          free_pages-Frees n c p s whole h (ground arith) in
        (s', ran, is, coalesced)
  ]

  calls-IsBuddy :
      (rs : List Request) (s : Buddy)
      → HaveOrders rs
      → IsBuddy n s
      → (s' : Buddy) × (calls rs s ≡ some s') × IsBuddy n s' × (IsCoalesced s → IsCoalesced s')
  unfolding calls
  calls-IsBuddy [] s is_int h = (s, refl, h, λ before. before)
  calls-IsBuddy (r ∷ rs) s is_int h =
      let (s1, ran, is, coalesced) = call-IsBuddy r s is_int.0 h in
      let (s2, ran', is', coalesced') = calls-IsBuddy rs s1 is_int.1 is in
      (s2, rw ran ran', is', λ before. coalesced' (coalesced before))

boot-IsCoalesced : IsCoalesced boot
boot-IsCoalesced j k small low high = let e = boot-Free.0 (j * 2 ^ suc k) k low in omega arith

-- Whatever calls of `alloc_pages` and `free_pages` are made from the start of `main`, with
-- orders below 2 ^ 31 and with null pointers or pages of `mem_map`, in use or not: they all
-- return, and no two blocks in use then have a page in common, nor does one leave the 0x280000
-- pages; no two free blocks are the halves of a larger one.
pub calls-apart :
    (rs : List Request)
    → AreRequests rs
    → (s : Buddy) × (calls rs boot ≡ some s)
      × ((x p k q o : ℕ) → Used s p k → Used s q o → In x p k → In x q o → (p ≡ q) × (k ≡ o))
      × ((p k : ℕ) → Used s p k → p + 2 ^ k ≤ num_pages)
      × IsCoalesced s
calls-apart rs requests =
    let (s, ran, is, coalesced) =
      calls-IsBuddy num_pages 2560 refl rs boot (AreRequests-HaveOrders rs requests)
        boot-IsBuddy.0 in
    (
      s,
      ran,
      (λ x p k q o u v i j. is.partition.disjoint x p k q o (inr u) (inr v) i j),
      (λ p k u. is.partition.bounded p k (inr u)),
      coalesced boot-IsCoalesced,
    )

-- From a state whose free blocks and blocks in use are a partition of the `n` pages, `n` a multiple
-- of the largest block, and where no two free blocks are the halves of a larger one: if after
-- any calls of `alloc_pages` and `free_pages` no block is in use, then every free block is one of the
-- largest order, and they cover all the pages.
pub calls-drained :
    (n c : ℕ) (rs : List Request) (s s' : Buddy)
    → n ≡ c * 2 ^ max_order
    → IsBuddy n s
    → IsCoalesced s
    → calls rs s ≡ some s'
    → ((q : ℕ) → s'.refcount q ≡ 0)
    → ((q o : ℕ) → Free s' q o → o ≡ max_order)
      × ((x : ℕ) → x < n → (q : ℕ) × Free s' q max_order × In x q max_order)
calls-drained n c rs s s' whole h before ran idle =
    let (t, ran', is_t, coalesced_t) =
      calls-IsBuddy n c whole rs s (calls-HaveOrders rs s s' ran) h in
    let same : t ≡ s' = Option.some-injective _ _ (sym ran' ∙ ran) in
    let is : IsBuddy n s' = subst (λ u. IsBuddy n u) same is_t in
    let merged : IsCoalesced s' = subst (λ u. IsCoalesced u) same (coalesced_t before) in
    let largest = drained n c s' whole is merged idle in
    (
      largest,
      λ x small.
          let (q, o, block, inside) = is.partition.covered x small in
          let free = block-Free n c s' whole is merged idle q o block in
          let e = largest q o free in
          let power : 2 ^ o ≡ 2 ^ max_order = ap (λ t. 2 ^ t) e in
          (q, subst (λ l. Free s' q l) e free, omega arith),
    )
