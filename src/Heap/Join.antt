-- ===== src/Heap/Join.antt =====
-- memory/heap.c: kfree of the block right behind the head of the free list.
use new_os.Base.{
  ℕ, zero, suc, ◌+◌, ◌%◌, ◌^◌, ◌<◌, ◌≡◌, ◌≢◌, refl, ap, ◌∙◌, Bool, true, false, ◌&&◌, ◌==◌, arith,
  mod-eq_of_lt,
}
use new_os.Heap.{
  Block, Heap, runs_on, heap_magic, hdr_size, next_block, write, merge_block, behind_free, freed,
  kfree, coalesce,
}
use new_os.Heap.Invariant.{write-same, write-ne}
use new_os.Heap.Free.{kfree_busy, coalesce_circle, coalesce-next, coalesce-merge_block}

abbrev free_header : Block → Bool
free_header k = k.magic == heap_magic && k.is_free

-- The block that merge_block makes of curr.
abbrev joined : ℕ → Heap → Block
joined curr h =
    let nxt = h.memory (next_block curr h) in
    record (h.memory curr) {
      size = ((h.memory curr).size + hdr_size + nxt.size) % 2 ^ 64;
      is_last = nxt.is_last;
      next = nxt.next;
    }

merge_block-joined : (curr : ℕ) (h : Heap) → (merge_block curr h).memory curr ≡ joined curr h
unfolding merge_block
merge_block-joined curr h =
    let ne : curr ≢ next_block curr h = λ e. omega (arith, e) in
    write-ne (write h.memory curr (joined curr h)) (next_block curr h) curr _ ne
    ∙ write-same h.memory curr (joined curr h)

merge_block_other :
    (curr x : ℕ) (h : Heap)
    → x ≢ curr
    → x ≢ next_block curr h
    → (merge_block curr h).memory x ≡ h.memory x
unfolding merge_block
merge_block_other curr x h p q =
    write-ne (write h.memory curr (joined curr h)) (next_block curr h) x _ q
    ∙ write-ne h.memory curr x (joined curr h) p

-- When block b lies right behind the free block that is the head of the free list, neither of them
-- is the last block, and no free block lies behind b, kfree of b never returns, whatever the fuel:
-- the joined block becomes its own successor in the free list.
pub kfree-runs_on :
    (fuel a b : ℕ) (h : Heap)
    → a ≢ 0
    → h.free_list ≡ a
    → next_block a h ≡ b
    → (h.memory a).is_last ≡ false
    → (h.memory b).magic ≡ heap_magic
    → (h.memory b).is_free ≡ false
    → (h.memory b).is_last ≡ false
    → behind_free b h ≡ false
    → (h.memory a).size + hdr_size + (h.memory b).size < 2 ^ 64
    → kfree fuel (b + hdr_size) h ≡ runs_on
unfolding coalesce
kfree-runs_on fuel a b h nz head behind last_a magic busy last_b none_behind small =
    let t = freed b h in
    let u = merge_block a t in
    let c = next_block b h in
    let tb = write-same h.memory b (record (h.memory b) { is_free = true; next = h.free_list }) in
    let other = λ (x : ℕ) (p : x ≢ b).
      write-ne h.memory b x (record (h.memory b) { is_free = true; next = h.free_list }) p in
    let a_ne : a ≢ b = λ e. omega (arith, e, behind) in
    let c_ne : c ≢ b = λ e. omega (arith, e) in
    let c_ne_a : c ≢ a = λ e. omega (arith, e, behind) in
    let ta = other a a_ne in
    let tc = other c c_ne in
    let behind_b : next_block b t ≡ c = ap (λ (k : Block). b + hdr_size + k.size) tb in
    let quiet_b : behind_free b t ≡ false =
      ap (λ (n : ℕ). free_header (t.memory n)) behind_b ∙ ap free_header tc ∙ none_behind in
    let behind_a : next_block a t ≡ b = ap (λ (k : Block). a + hdr_size + k.size) ta ∙ behind in
    let joins : behind_free a t ≡ true =
      ap (λ (n : ℕ). free_header (t.memory n)) behind_a
      ∙ ap free_header tb
      ∙ ground (arith, magic) in
    let ua = merge_block-joined a t in
    let u_last : (u.memory a).is_last ≡ false =
      ap (λ (k : Block). k.is_last) ua
      ∙ ap (λ (n : ℕ). (t.memory n).is_last) behind_a
      ∙ ap (λ (k : Block). k.is_last) tb
      ∙ last_b in
    let u_next : (u.memory a).next ≡ a =
      ap (λ (k : Block). k.next) ua
      ∙ ap (λ (n : ℕ). (t.memory n).next) behind_a
      ∙ ap (λ (k : Block). k.next) tb
      ∙ head in
    let size_b : (t.memory (next_block a t)).size ≡ (h.memory b).size =
      ap (λ (n : ℕ). (t.memory n).size) behind_a ∙ ap (λ (k : Block). k.size) tb in
    let size_a : (t.memory a).size ≡ (h.memory a).size = ap (λ (k : Block). k.size) ta in
    let sum : (t.memory a).size + hdr_size + (t.memory (next_block a t)).size
        ≡ (h.memory a).size + hdr_size + (h.memory b).size =
      omega (arith, size_a, size_b) in
    let u_size : (u.memory a).size ≡ (h.memory a).size + hdr_size + (h.memory b).size =
      ap (λ (k : Block). k.size) ua ∙ ap (λ (n : ℕ). n % 2 ^ 64) sum ∙ mod-eq_of_lt small in
    let behind_u : next_block a u ≡ c = omega (arith, u_size, behind) in
    let quiet_u : behind_free a u ≡ false =
      ap (λ (n : ℕ). free_header (u.memory n)) behind_u
      ∙ ap free_header (merge_block_other a c t c_ne_a (λ e. c_ne (e ∙ behind_a)))
      ∙ ap free_header tc
      ∙ none_behind in
    let nz_b : b ≢ 0 = λ e. omega (arith, e, behind) in
    kfree_busy fuel b h magic busy ∙ elim fuel as (λ (f : ℕ). coalesce f b t ≡ runs_on) [
      | zero ↦ refl
      | suc f ↦
          coalesce-next f b t nz_b (ap (λ (k : Block). k.is_last) tb ∙ last_b) quiet_b
          ∙ ap (λ (n : ℕ). coalesce f n t) (ap (λ (k : Block). k.next) tb ∙ head)
          ∙ elim f as (λ (f : ℕ). coalesce f a t ≡ runs_on) [
            | zero ↦ refl
            | suc g ↦
                coalesce-merge_block g a t nz (ap (λ (k : Block). k.is_last) ta ∙ last_a) joins
                ∙ coalesce_circle g a u nz u_last u_next quiet_u
          ]
    ]
