-- ===== src/Tests/Heap.antt =====
-- A slab of three objects of 1024 bytes, and the check value of the checksum.
use pristine.Kmalloc.{kmalloc, Served, kmalloc-Served}
use pristine.Checksum.Laws.{update_chunks, joined, crc32-update_chunks, crc32_detects_byte}
use pristine.Machine.{Machine, ◌>>=◌, Returns}
use pristine.Slab.Stack.{IsSlab, Touched}
use pristine.Slab.{slab_virt_start, max_objects, bin_alloc}
use pristine.Slab.Free.{bin_free}
use pristine.Checksum.{crc32_start, crc32_bits, crc32_loop, crc32_finalize, crc32}
use pristine.Slab.Objects.{bin_alloc-IsSlab, bin_free-IsSlab, bin_free-bin_alloc}
use pristine.Common.{
  ℕ, ◌+◌, ◌<◌, ◌≡◌, refl, ◌≢◌, true, List, [], ◌∷◌, arith, ◌==◌, if◌then◌else◌, length,
}

abbrev at_slab : ℕ
at_slab = slab_virt_start

abbrev first_object : ℕ
first_object = at_slab + 48

abbrev second_object : ℕ
second_object = at_slab + 1072

abbrev third_object : ℕ
third_object = at_slab + 2096

abbrev heap_words : ℕ → ℕ → ℕ → ℕ
heap_words count first x =
    if x == at_slab
    then count
    else if x == at_slab + 8
    then first
    else if x == at_slab + 40
    then 23
    else if x == first_object
    then second_object
    else if x == second_object
    then third_object
    else 0

abbrev heap : ℕ → ℕ → Machine
heap count first = record {
  pmm_bitmap = λ _. 255;
  pmm_bitmap_size = 8;
  mem = heap_words count first;
  cr3 = 0;
  kernel_pml4 = 0;
  slab_top = 4096;
  free_slabs = λ bin. if bin == 23 then at_slab else 0;
  full_slabs = λ _. 0;
}

one_taken : IsSlab (heap 1 second_object) 23 at_slab (second_object ∷ third_object ∷ [])
unfolding max_objects
one_taken = record {
  in_memory = omega arith;
  aligned = refl;
  not_null = λ e. absurd (omega arith);
  linked = (refl, (refl, tt));
  inside = omega arith;
  distinct = (((λ e. absurd (omega arith)), tt), (tt, tt));
  tagged = refl;
  counted = refl;
}

two_taken : IsSlab (heap 2 third_object) 23 at_slab (third_object ∷ [])
unfolding max_objects
two_taken = record {
  in_memory = omega arith;
  aligned = refl;
  not_null = λ e. absurd (omega arith);
  linked = (refl, tt);
  inside = omega arith;
  distinct = (tt, tt);
  tagged = refl;
  counted = refl;
}

bin_alloc-IsSlab_example :
    Returns
      (λ addr m'.
        (addr ≡ second_object)
        × IsSlab m' 23 at_slab (third_object ∷ [])
        × Touched at_slab at_slab (heap 1 second_object) m')
      (bin_alloc true 23 (heap 1 second_object))
bin_alloc-IsSlab_example =
    bin_alloc-IsSlab true (heap 1 second_object) 23 at_slab second_object third_object []
      (omega arith) (omega arith) refl one_taken

room_in_bin : length (third_object ∷ []) + 1 < max_objects 23
unfolding max_objects
room_in_bin = omega arith

bin_free-IsSlab_example :
    Returns
      (λ done m'.
        (done ≡ true)
        × IsSlab m' 23 at_slab (first_object ∷ third_object ∷ [])
        × Touched at_slab first_object (heap 2 third_object) m')
      (bin_free true first_object (heap 2 third_object))
bin_free-IsSlab_example =
    bin_free-IsSlab true (heap 2 third_object) 23 at_slab first_object (third_object ∷ [])
      (omega arith) (omega arith) (omega arith) two_taken (omega arith)
      ((λ e. absurd (omega arith)), tt) (omega arith) room_in_bin

bin_free-bin_alloc_example :
    Returns
      (λ done m'.
        (done ≡ true)
        × IsSlab m' 23 at_slab (second_object ∷ third_object ∷ [])
        × Touched at_slab second_object (heap 1 second_object) m')
      ((bin_alloc true 23 >>= λ addr. bin_free true addr) (heap 1 second_object))
bin_free-bin_alloc_example =
    bin_free-bin_alloc true (heap 1 second_object) 23 at_slab second_object third_object []
      (omega arith) (omega arith) refl (omega arith) (omega arith) one_taken (omega arith)

kmalloc-Served_example : Served true 100 (kmalloc true 100)
kmalloc-Served_example = kmalloc-Served true 100

-- The check value of this checksum is that of the text 123456789.
abbrev digits_text : List ℕ
digits_text = 49 ∷ 50 ∷ 51 ∷ 52 ∷ 53 ∷ 54 ∷ 55 ∷ 56 ∷ 57 ∷ []

crc32_check : crc32 digits_text ≡ 0xCBF4_3926
unfolding crc32 crc32_loop crc32_bits
crc32_check = refl

crc32-update_chunks_example :
    crc32_finalize (update_chunks crc32_start ((49 ∷ 50 ∷ []) ∷ (51 ∷ []) ∷ []))
    ≡ crc32 (joined ((49 ∷ 50 ∷ []) ∷ (51 ∷ []) ∷ []))
crc32-update_chunks_example = crc32-update_chunks ((49 ∷ 50 ∷ []) ∷ (51 ∷ []) ∷ [])

crc32_detects_byte_example : crc32 (49 ∷ 50 ∷ 51 ∷ []) ≢ crc32 (49 ∷ 54 ∷ 51 ∷ [])
crc32_detects_byte_example =
    crc32_detects_byte (49 ∷ []) (51 ∷ []) 50 54 (omega arith) (omega arith) (omega arith)
      (omega arith) (λ e. absurd (omega arith))
