-- ===== src/Bsfs/Path.antt =====
-- kernel/common/bsfs/bsfs.c: `bsfs_resolve_path` finds what the walk along the names of a path finds.
