-- ===== src/Examples/Transfers.antt =====
-- The properties of paths, hashes and transfers at concrete inputs.
use harmonic.Transfer.BlockMap.{
  find_block, fold_blocks, add_block, entry_insert, strong_insert, weak_get, strong_get, Listed,
  find_block-Listed,
}
use harmonic.Prelude.{bytes_eq}
use harmonic.Transfer.{loop, delta_request}
use harmonic.Transfer
use harmonic.Transfer.Endless.{loop-endless}
use harmonic.Error.{unfinished}
use harmonic.Transfer.BlockMap.{block_map}
use harmonic.Prelude.{replicate, ℕ}
use harmonic.Prelude.{ℕ, ◌+◌, ◌^◌, ◌≤◌, ◌<◌, true, length, drop, replicate}
use harmonic.Prelude.{none, some, List, [], ◌∷◌, ◌++◌, ◌≡◌, ◌≢◌, refl, arith, bytes_eq}
use harmonic.Text.{Bytes}
use harmonic.Path.{FilePath, root_dir, normal}
use harmonic.Path.Keys.{path_ord}
use harmonic.Error.{ok}
use harmonic.Io.{Io, done}
use harmonic.Config.{Config}
use harmonic.Proto.{
  default_timestamp, FileAction, upload, direction_i32, BlockSignature, block_index,
}
use harmonic.Proto.{Delta, literal}
use harmonic.Sink.{Sink}
use harmonic.BTree.{keys}
use harmonic.BTree.Laws.{IsSorted}
use harmonic.Hash.{BuzHash, new, compute}
use harmonic.Hash.Rolling.{roll_all, roll-compute}
use harmonic.Signatures.{chunks, chunks_from, sign_file}
use harmonic.Transfer.{send_deltas, send_delta_from_block_signatures}
use harmonic.Transfer.BlockMap.{WeakMap, find_block}
use harmonic.Transfer.BlockMap.{weak_get}
use harmonic.Transfer.Rebuild.{Rebuilds, send_deltas-Rebuilds}
use harmonic.Transfer.Sizes.{Fits, send_deltas-Fits}
use harmonic.Resync.{sign-send-write}
use harmonic.Writer.{BlockCache}
use harmonic.Writer.Temporary.{has_file_name}
use harmonic.Writer.Target.{Files, Permits, delta_writer}
use harmonic.Writer.Target.Delivered.{Delivered, completes, delta_writer-Delivered}
use harmonic.Handler.{Environment}
use harmonic.Prelude.{ℕ}

abbrev pub nines : Bytes
nines = replicate 32 9

-- The old file is one block, which the new file has behind another byte.
abbrev pub new_text : Bytes
new_text = 1 ∷ nines

-- Stands for a hash without collisions: a block is its own checksum.
abbrev itself : Bytes → Bytes
itself block = block

abbrev on_disk : Bytes → FilePath → Io Bytes
on_disk text path = done text

abbrev pub file : FilePath
file = normal (b'f' ∷ []) ∷ []

abbrev pub directory : FilePath
directory = root_dir ∷ normal (b'd' ∷ []) ∷ []

abbrev pub open_sink : Sink
open_sink = record { sent = []; closes = none }

few : length (chunks 32 nines) ≤ 2 ^ 32
unfolding chunks chunks_from
few = omega arith

sizes : length new_text + 32 < 2 ^ 64
sizes = omega arith

sign-send-write_example :
    (signed : _) × (sign_file itself 32 nines ≡ ok signed)
    × Rebuilds signed.1 new_text open_sink
        (send_delta_from_block_signatures itself (on_disk new_text) file signed.0 open_sink)
sign-send-write_example =
    sign-send-write itself (on_disk new_text) file 32 nines new_text open_sink (omega arith) sizes
      few (λ i k chunk found same. same) refl refl

abbrev no_map : WeakMap
no_map = []

abbrev no_cache : BlockCache
no_cache = record { blocks = [] }

unknown : (weak : ℕ) (strong : Bytes) (k : ℕ) → find_block no_map weak strong ≢ some k
unfolding find_block weak_get
unknown weak strong k e = cc

send_deltas-Rebuilds_example :
    Rebuilds no_cache new_text open_sink (send_deltas itself no_map 32 new_text open_sink)
send_deltas-Rebuilds_example =
    send_deltas-Rebuilds no_cache itself no_map 32 new_text (omega arith) sizes
      (λ weak i k whole found. absurd (unknown weak _ k found)) open_sink refl

send_deltas-Fits_example : Fits (send_deltas itself no_map 32 new_text open_sink).1.sent
send_deltas-Fits_example = send_deltas-Fits itself no_map 32 new_text open_sink tt

abbrev config : Config
config = record {
  sync_path = directory;
  socket_addr = [];
  schedule_delay = 3600;
  log_level = [];
  sync_threshold = 20;
  modify_weight = 2;
  remove_weight = 5;
  create_weight = 10;
  block_size = 32;
}

abbrev pub server : Environment
server = record {
  clean = λ p. p;
  blake3 = itself;
  read = on_disk nines;
  lifetime = λ p. none;
  config = config;
}

abbrev pub action : FileAction
action = record {
  path = b'f' ∷ [];
  direction = direction_i32 upload;
  timestamp_latest_modified = some default_timestamp;
}

abbrev pub permits : Permits
permits = record {
  creates = λ p. true;
  takes = none;
  flushes = true;
  renames = λ p q. true;
  sets_time = λ p ft. true;
}

abbrev disk : Files
disk = record { contents = (directory ++ file, nines) ∷ []; times = [] }

named : has_file_name (directory ++ file) ≡ true
unfolding has_file_name
named = refl

sorted : IsSorted (keys disk.contents)
unfolding keys
sorted = (tt, tt)

abbrev deltas : List Delta
deltas =
    record { index = 0; instruction = some (literal (1 ∷ [])) }
    ∷ record { index = 1; instruction = some (block_index 0) }
    ∷ []

abbrev cache : BlockCache
cache = record { blocks = nines ∷ [] }

delta_writer-Delivered_example :
    Delivered permits
      (directory ++ file)
      default_timestamp
      disk
      (completes permits (directory ++ file) cache deltas)
      (delta_writer permits (directory ++ file) cache default_timestamp deltas disk)
delta_writer-Delivered_example =
    delta_writer-Delivered permits (directory ++ file) cache default_timestamp deltas disk named
      sorted

abbrev one_two_three : Bytes
one_two_three = 1 ∷ 2 ∷ 3 ∷ []

abbrev four_five : Bytes
four_five = 4 ∷ 5 ∷ []

roll-compute_example :
    (after : BuzHash) × (roll_all (compute (new 3) one_two_three) four_five ≡ some after)
    × (after.hash ≡ (compute (new 3) (drop (length four_five) (one_two_three ++ four_five))).hash)
roll-compute_example = roll-compute 3 one_two_three four_five (omega arith) refl

abbrev block : BlockSignature
block = record { weak_checksum = 5; strong_checksum = nines }

abbrev no_bytes : BlockSignature
no_bytes = record { weak_checksum = 0; strong_checksum = nines }

loop-endless_example :
    (k : ℕ) × ((n : ℕ)
      → loop
          (λ block. nines)
          (block_map (no_bytes ∷ []))
          0
          new_text
          n
          (Transfer.start 0 new_text)
          open_sink
        ≡ (
          unfinished,
          record open_sink {
            sent = open_sink.sent ++ replicate n (delta_request 0 (block_index k));
          },
        ))
loop-endless_example =
    loop-endless (λ block. nines) new_text (no_bytes ∷ []) 0 no_bytes open_sink refl refl refl refl
      refl

listed : find_block (block_map (no_bytes ∷ [])) 0 nines ≡ some 0
unfolding find_block block_map fold_blocks add_block entry_insert strong_insert weak_get strong_get
    bytes_eq
listed = refl

find_block-Listed_example : Listed 0 (no_bytes ∷ []) 0 nines 0
find_block-Listed_example = find_block-Listed (no_bytes ∷ []) 0 nines 0 listed
