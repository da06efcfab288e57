-- ===== src/Mm/Pool/Reach.antt =====
-- Any sequence of calls of x86_page_pool_allocate and x86_page_pool_free.
use ygg_kernel.Base.{
  List, [], arith, false, if◌then◌else◌, inl, inr, refl, some, subst, suc, sym, true, ℕ, ℕ_discrete,
  ◌%◌, ◌++◌, ◌+◌, ◌-◌, ◌/◌, ◌<◌, ◌==◌, ◌^◌, ◌∙◌, ◌∷◌, ◌≡◌, ◌≢◌, ◌≤◌, ◌⊎◌,
}
use ygg_kernel.Mm.Pool.{
  MmState, in_pool, pool_allocate, pool_base, pool_bit, pool_free, pool_free_from, release_page,
}
use ygg_kernel.Mm.Pool.Fresh.{Fresh, IsPool, pool_allocate-Fresh}

-- The pages that the callers hold, and the state.
pub record Held : Type 0 where
  pub pages : List ℕ
  pub state : MmState

-- A call that succeeds: a page is handed out, or one that is held is given back.
pub data Step : Held → Held → Type 0 where
  allocates :
      (h : Held) (pt phys : ℕ) (u : MmState)
      → pool_allocate h.state ≡ some (pt, phys, u)
      → Step h (record { pages = pt ∷ h.pages; state = u })
  frees :
      (front back : List ℕ) (p : ℕ) (s u : MmState)
      → pool_free p s ≡ some u
      → Step
          (record { pages = front ++ (p ∷ back); state = s })
          (record { pages = front ++ back; state = u })

pub data Reach (s : Held) : Held → Type 0 where
  here : Reach s s
  next : {t u : Held} → Reach s t → Step t u → Reach s u

-- A page that is held: aligned, in the pool, and in use.
pub record IsHeld (s : MmState) (p : ℕ) : Type 0 where
  pub aligned : p % 2 ^ 12 ≡ 0
  pub range : (pool_base ≤ p) × (p < pool_base + 2 ^ 22)
  pub used : pool_bit (s.pools 0) p ≡ true

abbrev pub All : (ℕ → Type 0) → List ℕ → Type 0
All P [] = Unit
All P (x ∷ xs) = P x × All P xs

-- No page stands twice.
abbrev pub Distinct : List ℕ → Type 0
Distinct [] = Unit
Distinct (x ∷ xs) = All (λ y. x ≢ y) xs × Distinct xs

pub record IsSound (h : Held) : Type 0 where
  pub pool : IsPool h.state
  pub held : All (IsHeld h.state) h.pages
  pub distinct : Distinct h.pages

All-map : (P Q : ℕ → Type 0) → ((x : ℕ) → P x → Q x) → (xs : List ℕ) → All P xs → All Q xs
All-map P Q f [] h = tt
All-map P Q f (x ∷ xs) h = (f x h.0, All-map P Q f xs h.1)

All-append_left : (P : ℕ → Type 0) (xs ys : List ℕ) → All P (xs ++ ys) → All P xs
All-append_left P [] ys h = tt
All-append_left P (x ∷ xs) ys h = (h.0, All-append_left P xs ys h.1)

All-remove :
    (P : ℕ → Type 0) (xs ys : List ℕ) (y : ℕ) → All P (xs ++ (y ∷ ys)) → P y × All P (xs ++ ys)
All-remove P [] ys y h = h
All-remove P (x ∷ xs) ys y h = let (py, rest) = All-remove P xs ys y h.1 in (py, (h.0, rest))

Distinct-remove :
    (xs ys : List ℕ) (y : ℕ)
    → Distinct (xs ++ (y ∷ ys))
    → Distinct (xs ++ ys) × All (λ x. x ≢ y) (xs ++ ys)
Distinct-remove [] ys y h = (h.1, All-map (λ x. y ≢ x) (λ x. x ≢ y) (λ x ne e. ne (sym e)) ys h.0)
Distinct-remove (x ∷ xs) ys y h =
    let (d, apart) = Distinct-remove xs ys y h.1 in
    let (ne, all) = All-remove (λ z. x ≢ z) xs ys y h.0 in ((all, d), (ne, apart))

release_page-bit :
    (s : MmState) (p a : ℕ)
    → (s.pools 0).vaddr ≡ pool_base
    → pool_base ≤ p
    → pool_base ≤ a
    → pool_bit ((release_page 0 p s).pools 0) a
      ≡ (if a / 2 ^ 12 == p / 2 ^ 12 then false else pool_bit (s.pools 0) a)
unfolding release_page
release_page-bit s p a base lp la = elim (ℕ_discrete (a / 2 ^ 12) (p / 2 ^ 12)) [
  | yes same ↦
      let word : (a - (s.pools 0).vaddr) / 2 ^ 17 ≡ (p - (s.pools 0).vaddr) / 2 ^ 17 =
        omega arith in
      let bit : (a - (s.pools 0).vaddr) / 2 ^ 12 % 32 ≡ (p - (s.pools 0).vaddr) / 2 ^ 12 % 32 =
        omega arith in
      ground (arith, same, word, bit)
  | no other ↦
      let differ : ((a - (s.pools 0).vaddr) / 2 ^ 17 ≢ (p - (s.pools 0).vaddr) / 2 ^ 17)
          ⊎ ((a - (s.pools 0).vaddr) / 2 ^ 12 % 32 ≢ (p - (s.pools 0).vaddr) / 2 ^ 12 % 32) =
        elim (ℕ_discrete ((a - (s.pools 0).vaddr) / 2 ^ 17) ((p - (s.pools 0).vaddr) / 2 ^ 17)) [
          | no ne ↦ inl ne
          | yes word ↦ inr (λ bit. other (omega arith))
        ] in
      ground (arith, other, differ)
]

release_page-IsPool : (s : MmState) (p : ℕ) → IsPool s → IsPool (release_page 0 p s)
unfolding release_page
release_page-IsPool s p h = record { base = h.base; aligned = h.aligned }

pool_free_from-first :
    (n i a : ℕ) (s : MmState)
    → in_pool (s.pools i) a ≡ true
    → pool_bit (s.pools i) a ≡ true
    → pool_free_from (suc n) i a s ≡ some (release_page i a s)
unfolding pool_free_from
pool_free_from-first n i a s there bit = rw (there, bit) refl

-- Giving back a page that is held clears its bit in the first pool.
pool_free-release :
    (s u : MmState) (p : ℕ)
    → IsPool s
    → IsHeld s p
    → pool_free p s ≡ some u
    → release_page 0 p s ≡ u
unfolding pool_free
pool_free-release s u p pool h e =
    let base = pool.base in
    let there : in_pool (s.pools 0) p ≡ true = ground (arith, base, h.range) in
    let result = pool_free_from-first 15 0 p s there h.used in cc (sym result ∙ e)

IsHeld-allocate :
    (s u : MmState) (pt phys x : ℕ) → IsPool s → Fresh s pt phys u → IsHeld s x → IsHeld u x
IsHeld-allocate s u pt phys x pool f h =
    let bit = f.bits x h.range.0 h.range.1 in
    let used = h.used in
    record { aligned = h.aligned; range = h.range; used = ground (arith, bit, used) }

IsHeld-Fresh : (s u : MmState) (pt phys : ℕ) → Fresh s pt phys u → IsHeld u pt
IsHeld-Fresh s u pt phys f =
    let bit = f.bits pt f.range.0 f.range.1 in
    record { aligned = f.page.0; range = f.range; used = ground (arith, bit) }

IsHeld-ne : (s u : MmState) (pt phys x : ℕ) → Fresh s pt phys u → IsHeld s x → pt ≢ x
IsHeld-ne s u pt phys x f h e =
    let used = h.used in
    let free = f.free in ground (arith, subst (λ y. pool_bit (s.pools 0) y ≡ false) e free, used)

IsHeld-release :
    (s : MmState) (p x : ℕ)
    → IsPool s
    → IsHeld s p
    → IsHeld s x
    → x ≢ p
    → IsHeld (release_page 0 p s) x
IsHeld-release s p x pool hp hx ne =
    let bit = release_page-bit s p x pool.base hp.range.0 hx.range.0 in
    let used = hx.used in
    let aligned = hp.aligned in
    let ax = hx.aligned in
    let differ : x / 2 ^ 12 ≢ p / 2 ^ 12 = λ e. ne (omega arith) in
    record { aligned = ax; range = hx.range; used = ground (arith, bit, used, differ) }

All-both : (P Q : ℕ → Type 0) (xs : List ℕ) → All P xs → All Q xs → All (λ x. P x × Q x) xs
All-both P Q [] h k = tt
All-both P Q (x ∷ xs) h k = ((h.0, k.0), All-both P Q xs h.1 k.1)

Step-IsSound : {h k : Held} → Step h k → IsSound h → IsSound k
Step-IsSound (allocates h pt phys u e) sound =
    let f = pool_allocate-Fresh h.state sound.pool pt phys u e in
    record {
      pool = f.pool;
      held = (
        IsHeld-Fresh h.state u pt phys f,
        All-map (IsHeld h.state) (IsHeld u)
            (λ x hx. IsHeld-allocate h.state u pt phys x sound.pool f hx) h.pages sound.held,
      );
      distinct = (
        All-map (IsHeld h.state) (λ x. pt ≢ x) (λ x hx. IsHeld-ne h.state u pt phys x f hx) h.pages
            sound.held,
        sound.distinct,
      );
    }
Step-IsSound (frees front back p s u e) sound =
    let (hp, rest) = All-remove (IsHeld s) front back p sound.held in
    let (distinct, apart) = Distinct-remove front back p sound.distinct in
    let done = pool_free-release s u p sound.pool hp e in
    record {
      pool = subst IsPool done (release_page-IsPool s p sound.pool);
      held =
          subst (λ v. All (IsHeld v) (front ++ back)) done
            (All-map (λ x. IsHeld s x × (x ≢ p)) (IsHeld (release_page 0 p s))
              (λ x hx. IsHeld-release s p x sound.pool hp hx.0 hx.1) (front ++ back)
              (All-both (IsHeld s) (λ x. x ≢ p) (front ++ back) rest apart));
      distinct = distinct;
    }

reached-IsSound :
    (s : MmState) (h : Held) → IsPool s → Reach (record { pages = []; state = s }) h → IsSound h
reached-IsSound s h pool here = record { pool = pool; held = tt; distinct = tt }
reached-IsSound s h pool (next {t} r st) = Step-IsSound st (reached-IsSound s t pool r)

-- From a pool that is set up and of which no page is held, take any sequence of allocations that find
-- a free page inside the bitmap, in the word that was used last or behind it, and of frees of pages
-- that are held. The pages that are held at any time are different, and each is an aligned page of
-- the pool that is marked as in use. Allocations whose search leaves the bitmap, and frees of pages
-- that are not held, are not among the steps.
pub Reach-IsSound :
    (s : MmState) (h : Held)
    → IsPool s
    → Reach (record { pages = []; state = s }) h
    → Distinct h.pages × All (IsHeld h.state) h.pages
Reach-IsSound s h pool r = let sound = reached-IsSound s h pool r in (sound.distinct, sound.held)
