-- ===== src/Heap/Invariant.antt =====
-- memory/heap.c: the invariant of the heap, and what taking a block out of the free list does to it.
use new_os.Base.{
  ℕ, ◌%◌, ◌≤◌, ◌<◌, ◌≡◌, ◌≢◌, inl, inr, refl, sym, subst, ◌∙◌, true, false, ◌==◌, List, [], ◌∷◌,
  ◌++◌, Option, none, some, arith,
}
use new_os.Heap.{Block, Heap, write}
use new_os.Heap.Tiles.{In, Tiles, SameShape}
use new_os.Heap.Chain.{
  Links, IsDistinct, last_link, In-last_link, last_link-some, Links-cong, Links-append,
  Links-relink, IsDistinct-left, IsDistinct-right, IsDistinct-apart,
}

-- The blocks `bs` tile the heap up to its break, and the free list passes the blocks `fl`, each of
-- them once and free.
pub record IsValid (h : Heap) (bs fl : List ℕ) : Type 0 where
  pub aligned : h.heap_start_addr % 16 ≡ 0
  pub started : 0 < h.heap_start_addr
  pub inside : h.heap_current ≤ h.heap_end_addr
  pub tiles : Tiles h.memory h.heap_start_addr h.heap_current bs
  pub links : Links h.memory h.free_list fl 0
  pub distinct : IsDistinct fl
  pub listed : (x : ℕ) → In x fl → In x bs × ((h.memory x).is_free ≡ true)

pub write-same : (m : ℕ → Block) (a : ℕ) (b : Block) → write m a b a ≡ b
write-same m a b = let e : (a == a) ≡ true = ground arith in rw e refl

pub write-ne : (m : ℕ → Block) (a x : ℕ) (b : Block) → x ≢ a → write m a b x ≡ m x
write-ne m a x b ne = let e : (a == x) ≡ false = ground (arith, ne) in rw e refl

-- The head of the list after set_prev.
abbrev pub head_after : Option ℕ → ℕ → ℕ → ℕ
head_after none target head = target
head_after (some q) target head = head

-- From the memory m to m', block `curr` leaves the list behind `prev`, whose link is turned to the
-- target; the header `behind` may be new, and all else stays.
pub record Unlinked (m m' : ℕ → Block) (prev : Option ℕ) (curr behind target : ℕ) : Type 0 where
  pub turned : (q : ℕ) → prev ≡ some q → (m' q).next ≡ target
  pub kept : (x : ℕ) → x ≢ curr → x ≢ behind → SameShape (m x) (m' x)
  pub kept_free : (x : ℕ) → x ≢ curr → x ≢ behind → (m' x).is_free ≡ (m x).is_free
  pub kept_next : (x : ℕ) → x ≢ curr → x ≢ behind → prev ≢ some x → (m' x).next ≡ (m x).next

module _ (m m' : ℕ → Block) (head curr behind target : ℕ) (done rest : List ℕ) where
  module _ (u : Unlinked m m' (last_link done) curr behind target) where
    front-Links :
        Links m head done curr
        → IsDistinct done
        → ¬ In curr done
        → ¬ In behind done
        → Links m' (head_after (last_link done) target head) done target
    front-Links l d nc nb = front_of done u l d nc nb
      where
        front_of :
            (xs : List ℕ)
            → Unlinked m m' (last_link xs) curr behind target
            → Links m head xs curr
            → IsDistinct xs
            → ¬ In curr xs
            → ¬ In behind xs
            → Links m' (head_after (last_link xs) target head) xs target
        front_of [] v l d nc nb = refl
        front_of (b ∷ bs) v l d nc nb =
            let (q, e) = last_link-some b bs in
            subst (λ o. Links m' (head_after o target head) (b ∷ bs) target) (sym e)
              (Links-relink m m' head curr target q (b ∷ bs) l d e (v.turned q e) (λ x i ne.
                v.kept_next x (λ f. nc (subst (λ (n : ℕ). In n (b ∷ bs)) f i))
                  (λ f. nb (subst (λ (n : ℕ). In n (b ∷ bs)) f i))
                  (λ f. ne (ground (arith, sym f ∙ e)))))

    -- The list without `curr`, with the blocks `new` in its place.
    pub Links-Unlinked :
        (new : List ℕ)
        → Links m head done curr
        → Links m (m curr).next rest 0
        → IsDistinct (done ++ (curr ∷ rest))
        → ¬ In behind done
        → ¬ In behind rest
        → Links m' target new (m curr).next
        → Links m' (head_after (last_link done) target head) (done ++ (new ++ rest)) 0
    Links-Unlinked new l r d nd nr k =
        let (fresh, dr) = IsDistinct-right done (curr ∷ rest) d in
        let apart = IsDistinct-apart curr done (curr ∷ rest) d in
        let tail =
          Links-cong m m' (m curr).next 0 rest
            (λ x i.
              u.kept_next x (λ f. fresh (subst (λ (n : ℕ). In n rest) f i))
                (λ f. nr (subst (λ (n : ℕ). In n rest) f i))
                (λ f. IsDistinct-apart x done (curr ∷ rest) d (In-last_link x done f) (inr i)))
            r in
        let front =
          front-Links l (IsDistinct-left done (curr ∷ rest) d) (λ i. apart i (inl refl)) nd in
        Links-append m' (head_after (last_link done) target head) target 0 done (new ++ rest) front
          (Links-append m' target (m curr).next 0 new rest k tail)
