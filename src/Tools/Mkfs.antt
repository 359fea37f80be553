-- ===== src/Tools/Mkfs.antt =====
-- tools/bsfs/mkfs.bsfs.c: the command line and the layout of a new file system. The prints and the
-- writes of zeros are left out. `strtol`, and the size of the image where it opens, are parameters.
use pristine.Bsfs.{u32, sizeof_inode}
use pristine.Common.{
  ℕ, ◌+◌, ◌-◌, ◌*◌, ◌/◌, ◌%◌, ◌^◌, Bool, true, false, ◌&&◌, ◌||◌, Option, none, some, List, [], ◌∷◌,
  ltb, leb, ◌==◌, ◌!=◌, if◌then◌else◌, length,
}
use pristine.Tools.{ImageHeader}

-- `strtol`: the value, the number of characters that it takes, and whether `errno` is ERANGE.
pub record StrtolResult : Type 0 where
  pub negative : Bool
  pub magnitude : ℕ
  pub consumed : ℕ
  pub erange : Bool

pub data MkfsError : Type 0 where
  usage expected_value not_converted invalid_characters out_of_range : MkfsError
  label_too_long unknown_option image_not_opened not_a_multiple : MkfsError

pub data MkfsResult (A : Type 0) : Type 0 where
  done : A → MkfsResult A
  error : MkfsError → MkfsResult A

pub record MkfsOptions : Type 0 where
  pub final_blocksize : ℕ
  pub final_offset : ℕ
  pub final_label : List ℕ

-- `strcmp(a, b) == 0` on arguments
unfoldable pub same_text : List ℕ → List ℕ → Bool
same_text [] [] = true
same_text [] (y ∷ ys) = false
same_text (x ∷ xs) [] = false
same_text (x ∷ xs) (y ∷ ys) = (x == y) && same_text xs ys

abbrev pub offset_option : List ℕ
offset_option = 45 ∷ 45 ∷ 111 ∷ 102 ∷ 102 ∷ 115 ∷ 101 ∷ 116 ∷ []

abbrev pub block_size_option : List ℕ
block_size_option = 45 ∷ 45 ∷ 98 ∷ 108 ∷ 111 ∷ 99 ∷ 107 ∷ 45 ∷ 115 ∷ 105 ∷ 122 ∷ 101 ∷ []

abbrev pub label_option : List ℕ
label_option = 45 ∷ 45 ∷ 108 ∷ 97 ∷ 98 ∷ 101 ∷ 108 ∷ []

-- "mkfs.bsfs"
abbrev pub default_options : MkfsOptions
default_options = record {
  final_blocksize = 4096;
  final_offset = 0;
  final_label = 109 ∷ 107 ∷ 102 ∷ 115 ∷ 46 ∷ 98 ∷ 115 ∷ 102 ∷ 115 ∷ [];
}

-- A number between two bounds; `end` is after the characters taken.
unfoldable pub option_number : (List ℕ → StrtolResult) → List ℕ → ℕ → ℕ → MkfsResult ℕ
option_number strtol text low high =
    let value = strtol text in
    if value.consumed == 0
    then error not_converted
    else if ltb value.consumed (length text)
    then error invalid_characters
    else if value.erange || value.negative || ltb value.magnitude low || ltb high value.magnitude
    then error out_of_range
    else done value.magnitude

unfoldable pub known_option : List ℕ → Bool
known_option arg =
    same_text arg offset_option || same_text arg block_size_option || same_text arg label_option

-- One option with its value.
unfoldable pub set_option :
    (List ℕ → StrtolResult) → MkfsOptions → List ℕ → List ℕ → MkfsResult MkfsOptions
set_option strtol options arg value =
    if same_text arg offset_option
    then elim (option_number strtol value 0 1024) [
      | error e ↦ error e
      | done number ↦ done (record options { final_offset = number })
    ]
    else if same_text arg block_size_option
    then elim (option_number strtol value 1024 16384) [
      | error e ↦ error e
      | done number ↦ done (record options { final_blocksize = number })
    ]
    else if same_text arg label_option
    then if leb 32 (length value)
      then error label_too_long
      else done (record options { final_label = value })
    else error unknown_option

-- The loop over the arguments after the image.
unfoldable pub parse_options :
    (List ℕ → StrtolResult) → MkfsOptions → List (List ℕ) → MkfsResult MkfsOptions
parse_options strtol options [] = done options
parse_options strtol options (arg ∷ []) =
    error (if known_option arg then expected_value else unknown_option)
parse_options strtol options (arg ∷ value ∷ rest) = elim (set_option strtol options arg value) [
  | error e ↦ error e
  | done more ↦ parse_options strtol more rest
]

abbrev pub div_ceil : ℕ → ℕ → ℕ
div_ceil a b = (a + b - 1) / b

-- The sizes and the header, for the size of the image in bytes.
unfoldable pub image_layout : MkfsOptions → ℕ → ImageHeader
image_layout options imagesize =
    let size = options.final_blocksize in
    let total_blocks = u32 (imagesize / size) in
    let total_megablocks = u32 (div_ceil total_blocks (size * 8)) in
    let inode_count = total_blocks / 4 in
    let block_bitmap_bytes = u32 (total_blocks + 8 + 2 ^ 32 - 1) / 8 in
    let block_bitmap_blocks = u32 (div_ceil block_bitmap_bytes size) in
    let megablock_bitmap_bytes = u32 (total_megablocks + 8 + 2 ^ 32 - 1) / 8 in
    let megablock_bitmap_blocks = u32 (div_ceil megablock_bitmap_bytes size) in
    let inode_bitmap_bytes = u32 (inode_count + 8 + 2 ^ 32 - 1) / 8 in
    let inode_bitmap_blocks = u32 (div_ceil inode_bitmap_bytes size) in
    let inode_table_bytes = u32 (inode_count * sizeof_inode) in
    let inode_table_blocks = u32 (div_ceil inode_table_bytes size) in
    let reserved_blocks = u32 (options.final_offset + 1) in
    let megablock_bitmap_start = u32 (reserved_blocks + block_bitmap_blocks) in
    let inode_bitmap_start = u32 (megablock_bitmap_start + megablock_bitmap_blocks) in
    let inode_table_start = u32 (inode_bitmap_start + inode_bitmap_blocks) in
    let metadata_blocks = u32 (
      reserved_blocks + block_bitmap_blocks + megablock_bitmap_blocks + inode_bitmap_blocks
      + inode_table_blocks) in
    record {
      block_size = size;
      total_blocks = total_blocks;
      inode_count = inode_count;
      free_blocks = u32 (total_blocks + 2 ^ 32 - metadata_blocks);
      free_inodes = inode_count;
      block_bitmap_start = reserved_blocks;
      block_bitmap_blocks = block_bitmap_blocks;
      megablock_bitmap_start = megablock_bitmap_start;
      megablock_bitmap_blocks = megablock_bitmap_blocks;
      megablock_bitmap_size = megablock_bitmap_bytes;
      inode_bitmap_start = inode_bitmap_start;
      inode_bitmap_blocks = inode_bitmap_blocks;
      inode_table_start = inode_table_start;
      inode_table_blocks = inode_table_blocks;
      data_start = u32 (inode_table_start + inode_table_blocks);
      image_root = 0;
      partition_lba = options.final_offset;
      label = options.final_label;
    }

-- The program, for the arguments after its name; `image` is the size of the image where it opens.
unfoldable pub mkfs : (List ℕ → StrtolResult) → List (List ℕ) → Option ℕ → MkfsResult ImageHeader
mkfs strtol [] image = error usage
mkfs strtol (image_file ∷ args) image = elim (parse_options strtol default_options args) [
  | error e ↦ error e
  | done options ↦ elim image [
    | none ↦ error image_not_opened
    | some imagesize ↦
        if imagesize % options.final_blocksize != 0
        then error not_a_multiple
        else done (image_layout options imagesize)
  ]
]
