-- ===== src/Examples/Files.antt =====
-- A file system after a few calls.
use smart_device_io_t_operat.Prelude.{
  path_key, ℕ, Option, none, some, List, [], ◌∷◌, ◌++◌, ◌&&◌, map_option, same_codes, if◌then◌else◌,
  ◌≡◌, ◌⊎◌, ◌↔◌, false, true, refl,
}
use smart_device_io_t_operat.Prelude.Table
use smart_device_io_t_operat.FileSystem
use smart_device_io_t_operat.FileSystem.{
  FileSystemPorts, Inode, new_file_system, read, write, append, has_file, has_dir, list_dir,
}
use smart_device_io_t_operat.FileSystem.FileLock
use smart_device_io_t_operat.FileSystem.FileLock.{acquires, releases, spec_run, HasLine, run-Agrees}
use smart_device_io_t_operat.FileSystem.Names.{IsSorted}
use smart_device_io_t_operat.FileSystem.Listing.{HasChild, list_dir_lem}
use smart_device_io_t_operat.FileSystem.Contents.{read-write}
use smart_device_io_t_operat.FileSystem.Contents.Metadata.{AllDescribed, run-AllDescribed}
use smart_device_io_t_operat.FileSystem.Paths.{
  FilePath, root, normalize_path, rstrip, lstrip, to_posix, is_space, join_parts, resolve,
  split_slash, visit,
}
use smart_device_io_t_operat.FileSystem.Tree.{IsTree, new_file_system-IsTree}
use smart_device_io_t_operat.FileSystem.Tree.Runs
use smart_device_io_t_operat.FileSystem.Tree.Runs.{
  makes_dir, creates, writes, locks, unlocks, deletes, run-IsTree,
}

-- The texts `/d` and `/d/f`.
abbrev pub directory : FilePath
directory = b'/' ∷ b'd' ∷ []

abbrev pub file : FilePath
file = b'/' ∷ b'd' ∷ b'/' ∷ b'f' ∷ []

abbrev pub file_calls : List Runs.Call
file_calls =
    creates file none
    ∷ makes_dir directory
    ∷ creates file (some 1)
    ∷ writes file (b'x' ∷ []) (some 1)
    ∷ locks 1 file
    ∷ deletes file
    ∷ unlocks 1 file
    ∷ deletes file
    ∷ []

abbrev pub no_ports : Option (FileSystemPorts ℕ)
no_ports = none

run-IsTree_example : IsTree (Runs.run no_ports file_calls (new_file_system 0) 0).0
run-IsTree_example = run-IsTree no_ports file_calls (new_file_system 0) 0 (new_file_system-IsTree 0)

abbrev pub inode : Inode
inode = record {
  content = b'x' ∷ [];
  meta = record {
    name = b'f' ∷ [];
    path = file;
    size = 1;
    created_at = 0;
    modified_at = 0;
    owner_pid = some 1;
    open_count = 0;
    locked_by = none;
  };
  lock_owner = none;
  lock_waiters = [];
}

-- The file with the text `x`.
abbrev pub written : FileSystem.FileSystem
written = record (new_file_system 0) { files = (file, inode) ∷ [] }

file_there : Table.get (normalize_path file) written.files ≡ some inode
unfolding Table.get normalize_path rstrip lstrip to_posix is_space join_parts resolve split_slash
    visit
file_there = refl

free_file : HasLine (normalize_path file) written []
free_file = record {
  inode = inode;
  there = file_there;
  line = refl;
  served = λ h. refl;
  once = tt;
  shown = refl;
}

run-AllDescribed_example : AllDescribed (Runs.run no_ports file_calls (new_file_system 0) 0).0
run-AllDescribed_example = run-AllDescribed no_ports file_calls (new_file_system 0) 0 nothing_yet
  where
    nothing_yet : AllDescribed (new_file_system 0)
    nothing_yet p i h = unfold Table.get in cc h

read-write_example :
    (read file (write file (b'y' ∷ []) (some 2) written).1 ≡ (
      if same_codes (normalize_path file) (normalize_path file)
        && has_file (normalize_path file) written
      then some (b'y' ∷ [])
      else read file written))
    × (read file (append file (b'y' ∷ []) (some 2) written).1 ≡ (
        if same_codes (normalize_path file) (normalize_path file)
          && has_file (normalize_path file) written
        then map_option (λ old. old ++ b'y' ∷ []) (read file written)
        else read file written))
read-write_example = read-write file file (b'y' ∷ []) (some 2) written

abbrev pub listed : FileSystem.FileSystem
listed = record written { dirs = root ∷ directory ∷ [] }

list_dir_lem_example :
    (list_dir directory listed ≡ none) × (has_dir (normalize_path directory) listed.dirs ≡ false)
    ⊎ (names : List (List ℕ)) × (list_dir directory listed ≡ some names)
      × (has_dir (normalize_path directory) listed.dirs ≡ true)
      × IsSorted names
      × ((q : List ℕ) → (has_dir q names ≡ true) ↔ HasChild (normalize_path directory) q listed)
list_dir_lem_example = list_dir_lem directory listed

-- Processes 1 to 3 contend for a file that stands in the file system.
abbrev pub lock_ports : FileSystemPorts (List ℕ)
lock_ports = record {
  block_process = λ pid s. s;
  wake_process = λ pid s. pid ∷ s;
  on_file_lock_blocked = none;
}

abbrev pub lock_calls : List FileLock.Call
lock_calls = acquires 1 ∷ acquires 2 ∷ acquires 3 ∷ acquires 2 ∷ releases 1 ∷ []

run-Agrees_example :
    ((FileLock.run lock_ports file lock_calls written []).0 ≡ (spec_run lock_calls []).0)
    × HasLine
        (normalize_path file)
        (FileLock.run lock_ports file lock_calls written []).1
        (spec_run lock_calls []).1
run-Agrees_example = run-Agrees lock_ports file lock_calls written [] [] free_file

-- In the end 2 has the lock and 3 still waits.
line_in_the_end : (spec_run lock_calls []).1 ≡ 2 ∷ 3 ∷ []
unfolding spec_run
line_in_the_end = refl

-- A path that ends in a space before `/.` keeps the space, which a second call strips.
abbrev spaced : FilePath
spaced = b'/' ∷ b'x' ∷ b' ' ∷ b'/' ∷ b'.' ∷ []

abbrev names_of : FilePath → FilePath × FilePath
names_of p = (normalize_path p, normalize_path (normalize_path p))

normalized_twice : names_of spaced ≡ (b'/' ∷ b'x' ∷ b' ' ∷ [], b'/' ∷ b'x' ∷ [])
unfolding normalize_path rstrip lstrip to_posix is_space join_parts resolve split_slash visit
normalized_twice = refl
