-- ===== src/Fetch.antt =====
-- app/modloader/modloader_fetch.c: an image out of a file of the host, over 9p. A buffer is its
-- address on the heap beside the bytes in it, and `none` is a null pointer.
pub mod Bounds
use lk_modloader.Base.{
  ℕ, List, [], ◌∷◌, Option, none, some, Bool, true, false, not, ◌||◌, ◌==◌, ltb, if◌then◌else◌,
  length, drop,
}
use lk_modloader.Status.{
  err_invalid_args, err_not_found, err_not_supported, err_not_file, err_too_big, err_no_memory,
  err_io,
}
use lk_modloader.Outcome.{Outcome, done}
use lk_modloader.Action.{Action, ◌>>=◌, ◌>>◌, pure, raise, gets, modify, guard, on_error}
use lk_modloader.Elf.{Name}
use lk_modloader.Kernel.{Kernel, FileStat}
use lk_modloader.Symbols.{starts_with}
use lk_modloader.World.{World, ask, call_service, with_os, free_heap}

-- `MODLOADER_MAX_FETCH_SIZE`
abbrev pub max_fetch_size : ℕ
max_fetch_size = 0x40000

-- `"/v9p"`, `"9p"` and `"v9p0"`
abbrev v9p_mount : Name
v9p_mount = b'/' ∷ b'v' ∷ b'9' ∷ b'p' ∷ []

abbrev v9p_fs : Name
v9p_fs = b'9' ∷ b'p' ∷ []

abbrev v9p_bdev : Name
v9p_bdev = b'v' ∷ b'9' ∷ b'p' ∷ b'0' ∷ []

-- `"file:"`
abbrev pub file_scheme : Name
file_scheme = b'f' ∷ b'i' ∷ b'l' ∷ b'e' ∷ b':' ∷ []

-- `path[0] == '/'`
unfoldable pub is_absolute : Name → Bool
is_absolute [] = false
is_absolute (c ∷ cs) = c == b'/'

unfoldable pub uri_path : Name → Option Name
unfolding is_absolute
uri_path uri =
    if starts_with uri file_scheme
    then (if is_absolute (drop 5 uri) then some (drop 5 uri) else none)
    else (if is_absolute uri then some uri else none)

module _ (k : Kernel) where
  -- `modloader_v9p_ensure_mounted`, from the block device on.
  unfoldable pub mount_device : Option ℕ → Action (World k) (Unit {0})
  mount_device none = raise err_not_found
  mount_device (some bdev) = do
    modify (with_os k (λ os. k.bio_close os bdev))
    call_service k (λ os. k.fs_mount os v9p_mount v9p_fs v9p_bdev)
    modify (λ w. record w { v9p_mounted = true })

  unfoldable pub v9p_ensure_mounted : Action (World k) (Unit {0})
  unfolding mount_device
  v9p_ensure_mounted = do
    mounted ← gets (λ w. w.v9p_mounted)
    if mounted then pure tt else (do bdev ← ask k (λ os. k.bio_open os v9p_bdev); mount_device bdev)

  -- The part of `modloader_fetch_file_path` between the open and the label `out`. The buffer is freed
  -- where an error occurs after it was given.
  unfoldable pub read_file : ℕ → Action (World k) (ℕ × List ℕ)
  read_file fh = do
    st ← call_service k (λ os. k.fs_stat_file os fh)
    guard st.is_dir err_not_file
    guard (st.size == 0 || ltb max_fetch_size st.size) err_too_big
    buf ← ask k (λ os. k.malloc os st.size)
    guard (buf == 0) err_no_memory
    on_error (free_heap k buf) (do
      bytes ← call_service k (λ os. k.fs_read_file os fh 0 st.size)
      guard (not (length bytes == st.size)) err_io
      pure (buf, bytes))

  -- The label `out`: the file is closed however the read ends.
  unfoldable pub close_after : {A : Type 0} → ℕ → Action (World k) A → Action (World k) A
  close_after fh m w = ((m w).0, with_os k (λ os. k.fs_close_file os fh) (m w).1)

  unfoldable pub fetch_file_path : Name → Action (World k) (ℕ × List ℕ)
  fetch_file_path path = do
    v9p_ensure_mounted
    fh ← call_service k (λ os. k.fs_open_file os path)
    close_after fh (read_file fh)

  -- The path that the URI names, or null.
  unfoldable pub fetch_path : Option Name → Action (World k) (ℕ × List ℕ)
  fetch_path none = raise err_not_supported
  fetch_path (some path) = fetch_file_path path

  unfoldable pub fetch : Option Name → Action (World k) (ℕ × List ℕ)
  unfolding fetch_path
  fetch none = raise err_invalid_args
  fetch (some uri) = fetch_path (uri_path uri)
