-- ===== src/Heap/Tests.antt =====
-- memory/heap.c: runs of the heap on a region of one page.
use new_os.Base.{ℕ, ◌≡◌, inl, inr, refl, Bool, true, false, [], ◌∷◌, arith}
use new_os.Heap.{
  Block, Heap, Outcome, returns, panics, runs_on, heap_magic, write, map_pages, new_region,
  expand_heap, heap_init, set_prev, split_block, take_block, use_block, first_fit, kmalloc_within,
  kmalloc, kmalloc_aligned, kcalloc, merge_block, coalesce, freed, kfree, krealloc,
}
use new_os.Heap.Invariant.{IsValid}
use new_os.Heap.Grow.{Started, heap_init-IsValid}
use new_os.Heap.Free.{kfree-freed}
use new_os.Heap.Join.{kfree-runs_on}

program : Unit {0}
unfolding map_pages new_region expand_heap heap_init set_prev split_block take_block use_block
    first_fit kmalloc_within kmalloc kmalloc_aligned kcalloc merge_block coalesce kfree krealloc
program = tt

abbrev all_pages : ℕ → Bool
all_pages a = true

abbrev blank : ℕ → Block
blank a = record { magic = 0; is_free = false; is_last = false; size = 0; next = 0 }

-- One free block of a page, at address 64.
abbrev page : Heap
page = record {
  heap_start_addr = 64;
  heap_end_addr = 65536;
  heap_current = 4160;
  free_list = 64;
  heap_used_bytes = 0;
  memory =
      write blank 64
        (record { magic = heap_magic; is_free = true; is_last = true; size = 4064; next = 0 });
}

abbrev pointer : Outcome (ℕ × Heap) → ℕ
pointer (returns (p, h)) = p
pointer panics = 1
pointer runs_on = 2

abbrev after : Outcome (ℕ × Heap) → Heap
after (returns (p, h)) = h
after panics = page
after runs_on = page

abbrev alloc : ℕ → Heap → Outcome (ℕ × Heap)
alloc = kmalloc 9 all_pages

-- Two allocations split the page; one that does not fit expands the heap.
allocations :
    (pointer (alloc 100 page) ≡ 96)
    × (pointer (alloc 20 (after (alloc 100 page))) ≡ 240)
    × (pointer (alloc 5000 page) ≡ 4192)
    × (pointer (alloc 70000 page) ≡ 0)
    × (pointer (alloc 0 page) ≡ 0)
    × (pointer (kmalloc_aligned 9 all_pages 100 256 page) ≡ 256)
unfolding program
allocations = (refl, refl, refl, refl, refl, refl)

-- A size that wraps around is given 0 bytes; so is a product that does.
overflows :
    (pointer (alloc 18446744073709551615 page) ≡ 96)
    × (((after (alloc 18446744073709551615 page)).memory 64).size ≡ 0)
    × (pointer (kcalloc 9 all_pages 9223372036854775809 2 page) ≡ 96)
unfolding program
overflows = (refl, refl, refl)

-- Three blocks: 112 bytes at 64 and 32 bytes at 208 in use, and the rest of the page at 272.
abbrev row : Bool → Bool → ℕ → ℕ → Block
row first_free last_free next =
    write
      (write
        (write blank 272 (record {
          magic = heap_magic;
          is_free = last_free;
          is_last = true;
          size = 3856;
          next = 0;
        }))
        208 (record { magic = heap_magic; is_free = false; is_last = false; size = 32; next = 0 }))
      64
      (record {
        magic = heap_magic;
        is_free = first_free;
        is_last = false;
        size = 112;
        next = next;
      })

abbrev three : Heap
three = record page { free_list = 272; memory = row false true 0 }

three-IsValid : IsValid three (64 ∷ 208 ∷ 272 ∷ []) (272 ∷ [])
three-IsValid = record {
  aligned = refl;
  started = omega arith;
  inside = omega arith;
  tiles = (refl, (refl, refl), (refl, (refl, refl), (refl, (refl, refl), refl)));
  links = (refl, (λ e. omega (arith, e)), refl);
  distinct = ((λ i. i), tt);
  listed = λ x i. elim i [ inl e ↦ rw e (inr (inr (inl refl)), refl) | inr j ↦ absurd j ];
}

-- The first block free, and the other two in use.
abbrev cornered : Heap
cornered = record page { free_list = 64; memory = row true false 0 }

-- kfree of the second block does not return.
corner : kfree 1000 240 cornered ≡ runs_on
unfolding program
corner = refl

heap_init-IsValid_example :
    Started all_pages 65536 4194304 (heap_init all_pages 65536 4194304 blank)
heap_init-IsValid_example =
    heap_init-IsValid all_pages 65536 4194304 blank refl (omega arith) (omega arith)

kfree-freed_case :
    (kfree 9 96 three ≡ returns (freed 64 three))
    × IsValid (freed 64 three) (64 ∷ 208 ∷ 272 ∷ []) (64 ∷ 272 ∷ [])
kfree-freed_case =
    kfree-freed 9 64 three (64 ∷ 208 ∷ 272 ∷ []) (272 ∷ []) three-IsValid (inl refl) refl
      (omega arith)
      (λ x i. elim i [
        | inl e ↦ rw e refl
        | inr j ↦ elim j [ inl e ↦ rw e refl | inr k ↦ absurd k ]
      ])

kfree-runs_on_example : kfree 1000 240 cornered ≡ runs_on
kfree-runs_on_example =
    kfree-runs_on 1000 64 208 cornered (λ e. omega (arith, e)) refl refl refl refl refl refl refl
      (omega arith)
