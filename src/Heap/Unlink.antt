-- ===== src/Heap/Unlink.antt =====
-- memory/heap.c: the memory once kmalloc has turned a link and marked a block as used.
use new_os.Base.{
  ℕ, ◌≡◌, ◌≢◌, inl, inr, refl, ap, sym, subst, ◌∙◌, false, ◌==◌, Option, none, some, arith,
  Bool-cases,
}
use new_os.Heap.{Block, Heap, write, set_prev}
use new_os.Heap.Tiles.{SameShape}
use new_os.Heap.Invariant.{Unlinked, head_after, write-same, write-ne}

-- *prev = v, as a change of the memory.
abbrev pub turn : Option ℕ → ℕ → (ℕ → Block) → ℕ → Block
turn none v m = m
turn (some q) v m = write m q (record (m q) { next = v })

pub set_prev-turn :
    (prev : Option ℕ) (v : ℕ) (h : Heap)
    → set_prev prev v h
      ≡ record h { memory = turn prev v h.memory; free_list = head_after prev v h.free_list }
unfolding set_prev
set_prev-turn none v h = refl
set_prev-turn (some q) v h = refl

-- Turning a link changes nothing but that link.
pub turn-SameShape :
    (prev : Option ℕ) (v : ℕ) (m : ℕ → Block) (x : ℕ)
    → SameShape (m x) (turn prev v m x) × ((turn prev v m x).is_free ≡ (m x).is_free)
turn-SameShape none v m x = ((refl, refl), refl)
turn-SameShape (some q) v m x = elim (Bool-cases (q == x)) [
  | inl e ↦ let same : q ≡ x = ground arith in rw (e, same) ((refl, refl), refl)
  | inr e ↦ rw e ((refl, refl), refl)
]

pub turn_next :
    (prev : Option ℕ) (v : ℕ) (m : ℕ → Block) (x : ℕ)
    → prev ≢ some x
    → (turn prev v m x).next ≡ (m x).next
turn_next none v m x ne = refl
turn_next (some q) v m x ne =
    ap (λ (b : Block). b.next) (write-ne m q x _ (λ e. ne (ap some (sym e))))

turn_turned :
    (prev : Option ℕ) (v : ℕ) (m : ℕ → Block) (q : ℕ) → prev ≡ some q → (turn prev v m q).next ≡ v
turn_turned prev v m q e =
    subst (λ o. (turn o v m q).next ≡ v) (sym e) (ap (λ (b : Block). b.next) (write-same m q _))

-- The block is marked as used.
abbrev pub used : ℕ → (ℕ → Block) → ℕ → Block
used curr m = write m curr (record (m curr) { is_free = false })

pub used_ne : (curr : ℕ) (m : ℕ → Block) (x : ℕ) → x ≢ curr → used curr m x ≡ m x
used_ne curr m x ne = write-ne m curr x (record (m curr) { is_free = false }) ne

pub used-SameShape : (curr : ℕ) (m : ℕ → Block) (x : ℕ) → SameShape (m x) (used curr m x)
used-SameShape curr m x = elim (Bool-cases (curr == x)) [
  | inl e ↦ let same : curr ≡ x = ground arith in rw (e, same) (refl, refl)
  | inr e ↦ rw e (refl, refl)
]

-- Both changes together keep the shape of every block.
pub used-turn-SameShape :
    (curr : ℕ) (prev : Option ℕ) (v : ℕ) (m : ℕ → Block) (x : ℕ)
    → SameShape (m x) (used curr (turn prev v m) x)
used-turn-SameShape curr prev v m x =
    let (p, q) = used-SameShape curr (turn prev v m) x in
    let ((r, s), f) = turn-SameShape prev v m x in (p ∙ r, q ∙ s)

module _ (m m1 : ℕ → Block) (prev : Option ℕ) (curr behind target : ℕ) where
  pub used-Unlinked :
      ((x : ℕ) → x ≢ curr → x ≢ behind → m1 x ≡ m x)
      → prev ≢ some curr
      → Unlinked m (used curr (turn prev target m1)) prev curr behind target
  used-Unlinked same ne =
      let M = turn prev target m1 in
      let w = λ (x : ℕ) (p : x ≢ curr). write-ne M curr x (record (M curr) { is_free = false }) p in
      record {
        turned = λ q e.
            ap (λ (b : Block). b.next) (w q (λ f. ne (e ∙ ap some f)))
            ∙ turn_turned prev target m1 q e;
        kept = λ x p q.
            subst (SameShape (m x)) (sym (w x p))
              (subst (λ b. SameShape b (M x)) (same x p q) (turn-SameShape prev target m1 x).0);
        kept_free = λ x p q.
            ap (λ (b : Block). b.is_free) (w x p)
            ∙ (turn-SameShape prev target m1 x).1
            ∙ ap (λ (b : Block). b.is_free) (same x p q);
        kept_next = λ x p q f.
            ap (λ (b : Block). b.next) (w x p)
            ∙ turn_next prev target m1 x f
            ∙ ap (λ (b : Block). b.next) (same x p q);
      }
