-- ===== src/Tools/Formatted.antt =====
-- tools/bsfs/mkfs.bsfs.c: what the options can be, and every outcome of the program.
use pristine.Tools.{ImageHeader}
use pristine.Common.{
  ℕ, ◌%◌, ◌^◌, ◌≤◌, ◌<◌, ◌≡◌, refl, ◌≢◌, ◌⊎◌, inl, inr, Bool, true, false, ◌||◌, some, List, [],
  ◌∷◌, arith, ℕ_discrete, ltb, leb, ◌==◌, ◌!=◌, if◌then◌else◌, Bool-cases, length,
}
use pristine.Tools.Layout.{ValidOptions, LaidOut, image_layout-LaidOut}
use pristine.Tools.Mkfs.{
  StrtolResult, not_a_multiple, MkfsResult, done, error, MkfsOptions, same_text, offset_option,
  block_size_option, label_option, default_options, option_number, set_option, parse_options,
  image_layout, mkfs,
}

-- A condition on what is given where there is no error.
abbrev Good : {A : Type 0} → (A → Type 0) → MkfsResult A → Type 0
Good P (error e) = Unit
Good P (done a) = P a

option_number-Good :
    (strtol : List ℕ → StrtolResult) (text : List ℕ) (low high : ℕ)
    → Good (λ n. (low ≤ n) × (n ≤ high)) (option_number strtol text low high)
unfolding option_number
option_number-Good strtol text low high =
    let value = strtol text in
    elim (Bool-cases (value.consumed == 0)) [
      | inl nothing ↦ rw nothing tt
      | inr some_taken ↦ elim (Bool-cases (ltb value.consumed (length text))) [
        | inl more ↦ rw (some_taken, more) tt
        | inr all ↦
            elim (Bool-cases (
              value.erange
              || value.negative
              || ltb value.magnitude low
              || ltb high value.magnitude)) [
                | inl out ↦ rw (some_taken, all, out) tt
                | inr fits ↦
                    rw (some_taken, all, fits)
                      (in_range value.erange value.negative low high value.magnitude fits)
              ]
      ]
    ]
  where
    in_range :
        (e n : Bool) (low high x : ℕ)
        → (e || n || ltb x low || ltb high x) ≡ false
        → (low ≤ x) × (x ≤ high)
    in_range true n low high x h = absurd (cc h)
    in_range false true low high x h = absurd (cc h)
    in_range false false low high x h = ground (arith, h)

set_option-Good :
    (strtol : List ℕ → StrtolResult) (options : MkfsOptions) (arg value : List ℕ)
    → ValidOptions options
    → Good ValidOptions (set_option strtol options arg value)
unfolding set_option
set_option-Good strtol options arg value valid = elim (Bool-cases (same_text arg offset_option)) [
  | inl offset ↦
      rw offset
        (with_offset (option_number strtol value 0 1024) (option_number-Good strtol value 0 1024))
  | inr no_offset ↦ elim (Bool-cases (same_text arg block_size_option)) [
    | inl size ↦
        rw (no_offset, size)
          (with_size (option_number strtol value 1024 16384)
            (option_number-Good strtol value 1024 16384))
    | inr no_size ↦ elim (Bool-cases (same_text arg label_option)) [
      | inr unknown ↦ rw (no_offset, no_size, unknown) tt
      | inl label ↦ elim (Bool-cases (leb 32 (length value))) [
        | inl long ↦ rw (no_offset, no_size, label, long) tt
        | inr short ↦
            rw (no_offset, no_size, label, short)
              record {
                size_low = valid.size_low;
                size_high = valid.size_high;
                offset_high = valid.offset_high;
                label_short = ground (arith, short);
              }
      ]
    ]
  ]
]
  where
    with_offset :
        (r : MkfsResult ℕ)
        → Good (λ n. (0 ≤ n) × (n ≤ 1024)) r
        → Good ValidOptions (elim r [
          | error e ↦ error e
          | done number ↦ done (record options { final_offset = number })
        ])
    with_offset (error e) g = tt
    with_offset (done number) g = record {
      size_low = valid.size_low;
      size_high = valid.size_high;
      offset_high = g.1;
      label_short = valid.label_short;
    }

    with_size :
        (r : MkfsResult ℕ)
        → Good (λ n. (1024 ≤ n) × (n ≤ 16384)) r
        → Good ValidOptions (elim r [
          | error e ↦ error e
          | done number ↦ done (record options { final_blocksize = number })
        ])
    with_size (error e) g = tt
    with_size (done number) g = record {
      size_low = g.0;
      size_high = g.1;
      offset_high = valid.offset_high;
      label_short = valid.label_short;
    }

-- The options so far, and those after one more.
Good-next :
    (strtol : List ℕ → StrtolResult) (rest : List (List ℕ)) (r : MkfsResult MkfsOptions)
    → Good ValidOptions r
    → ((options : MkfsOptions)
        → ValidOptions options
        → Good ValidOptions (parse_options strtol options rest))
    → Good ValidOptions (elim r [ error e ↦ error e | done more ↦ parse_options strtol more rest ])
Good-next strtol rest (error e) g later = tt
Good-next strtol rest (done more) g later = later more g

parse_options-Good :
    (strtol : List ℕ → StrtolResult) (options : MkfsOptions) (args : List (List ℕ))
    → ValidOptions options
    → Good ValidOptions (parse_options strtol options args)
unfolding parse_options
parse_options-Good strtol options [] valid = valid
parse_options-Good strtol options (arg ∷ []) valid = tt
parse_options-Good strtol options (arg ∷ value ∷ rest) valid =
    Good-next strtol rest (set_option strtol options arg value)
      (set_option-Good strtol options arg value valid)
      λ more ok. parse_options-Good strtol more rest ok

default_options-Valid : ValidOptions default_options
default_options-Valid = record {
  size_low = omega arith;
  size_high = omega arith;
  offset_high = omega arith;
  label_short = omega arith;
}

-- A header that is written for options and the size of an image.
pub record Formatted (options : MkfsOptions) (imagesize : ℕ) (result : MkfsResult ImageHeader)
    : Type 0 where
  pub header : ImageHeader
  pub written : result ≡ done header
  pub valid : ValidOptions options
  pub whole : imagesize % options.final_blocksize ≡ 0
  pub laid_out : LaidOut options imagesize header

-- The outcomes by what the command line gives.
abbrev pub Outcome : MkfsResult MkfsOptions → ℕ → MkfsResult ImageHeader → Type 0
Outcome (error e) imagesize result = result ≡ error e
Outcome (done options) imagesize result =
    ((imagesize % options.final_blocksize ≢ 0) × (result ≡ error not_a_multiple))
    ⊎ Formatted options imagesize result

-- What `mkfs.bsfs` does with an image below 64 GiB that opens. An error in the options is what it
-- reports. Otherwise the options are within their bounds, a block size of 1024 to 16384, an offset of
-- at most 1024 blocks and a label below 32 bytes; it reports that the size of the image is not a
-- multiple of the block size exactly where it is not, and writes a header where it is: from the
-- block at the offset on, for every offset, also 0, the block with the header, the block bitmap, the megablock bitmap, the inode bitmap, the inode table and the
-- data follow one another without gap or overlap, there is a bit for each block, each megablock and
-- each inode, and room for each inode, and the free blocks are those from the data on, where the image
-- has that many.
pub mkfs-Outcome :
    (strtol : List ℕ → StrtolResult) (image_file : List ℕ) (args : List (List ℕ)) (imagesize : ℕ)
    → imagesize < 2 ^ 36
    → Outcome
        (parse_options strtol default_options args)
        imagesize
        (mkfs strtol (image_file ∷ args) (some imagesize))
unfolding mkfs
mkfs-Outcome strtol image_file args imagesize small =
    by_options (parse_options strtol default_options args)
      (parse_options-Good strtol default_options args default_options-Valid)
  where
    written :
        (options : MkfsOptions)
        → ValidOptions options
        → Outcome (done options) imagesize (
            if imagesize % options.final_blocksize != 0
            then error not_a_multiple
            else done (image_layout options imagesize))
    written options valid = elim (ℕ_discrete (imagesize % options.final_blocksize) 0) [
      | yes whole ↦ rw whole (
          inr (record {
            header = image_layout options imagesize;
            written = refl;
            valid = valid;
            whole = whole;
            laid_out = image_layout-LaidOut options imagesize valid small;
          }))
      | no part ↦
          let test : (imagesize % options.final_blocksize != 0) ≡ true = ground (arith, part) in
          rw test (inl (part, refl))
    ]

    by_options :
        (r : MkfsResult MkfsOptions)
        → Good ValidOptions r
        → Outcome r imagesize (elim r [
          | error e ↦ error e
          | done options ↦
              if imagesize % options.final_blocksize != 0
              then error not_a_multiple
              else done (image_layout options imagesize)
        ])
    by_options (error e) g = refl
    by_options (done options) valid = written options valid
