-- ===== src/Transfer/Runs.antt =====
-- Runs of sending code over an open channel, by what their deltas do to the receiver's file.
use harmonic.Prelude.{ℕ, ◌≡◌, refl, sym, ◌∙◌, ap, arith, none, some, List, [], ◌∷◌, ◌++◌, map}
use harmonic.Prelude.{append-nil, append_assoc, length}
use mathlib.Core.Path.{subst₂}
use mathlib.Core.List.{map-append}
use harmonic.Text.{Bytes}
use harmonic.Error.{Outcome, ok, ◌>>=◌}
use harmonic.Proto.{Delta, Instruction, delta, SyncRequest}
use harmonic.Sink.{Sink, Sends, and_then, send}
use harmonic.Writer.{BlockCache, instruction_bytes, write_deltas}
use harmonic.Writer.Append.{write_delta_end, write_deltas-append}
use harmonic.Transfer.{delta_request}

abbrev pub delta_message : Delta → SyncRequest
delta_message d = record { payload = some (delta d) }

abbrev pub requests : List Delta → List SyncRequest
requests = map delta_message

-- The run returns `value`, and its deltas turn the receiver's file `before` into `after`.
pub record Runs (cache : BlockCache) {A : Type 0} (s : Sink) (before after : Bytes) (value : A)
    (run : Outcome A × Sink) : Type 0 where
  pub sink : Sink
  pub returns : run ≡ (ok value, sink)
  pub stays_open : sink.closes ≡ none
  pub deltas : List Delta
  pub sent : sink.sent ≡ s.sent ++ requests deltas
  pub wrote : write_deltas cache before deltas ≡ ok after

pub send_open :
    (request : SyncRequest) (s : Sink)
    → s.closes ≡ none
    → send request s ≡ (ok tt, record s { sent = s.sent ++ request ∷ [] })
unfolding send
send_open request s open_channel = ground arith

module _ (cache : BlockCache) where
  pub Runs-pure :
      {A : Type 0} (s : Sink) (file : Bytes) (value : A)
      → s.closes ≡ none
      → Runs cache s file file value (ok value, s)
  unfolding write_deltas
  Runs-pure s file value open_channel = record {
    sink = s;
    returns = refl;
    stays_open = open_channel;
    deltas = [];
    sent = sym (append-nil s.sent);
    wrote = refl;
  }

  pub Runs-send :
      (s : Sink) (file bytes : Bytes) (index : ℕ) (instruction : Instruction)
      → s.closes ≡ none
      → index ≡ length file
      → instruction_bytes cache (some instruction) ≡ ok bytes
      → Runs cache s file (file ++ bytes) tt (send (delta_request index instruction) s)
  unfolding write_deltas
  Runs-send s file bytes index instruction open_channel place reads = record {
    sink = record s { sent = s.sent ++ delta_request index instruction ∷ [] };
    returns = send_open (delta_request index instruction) s open_channel;
    stays_open = open_channel;
    deltas = record { index = index; instruction = some instruction } ∷ [];
    sent = refl;
    wrote =
        ap (λ t. t >>= λ file'. ok file')
          (write_delta_end cache file bytes index instruction place reads);
  }

  pub Runs-seq :
      {A B : Type 0} (s : Sink) (before middle after : Bytes) (value : A) (result : B)
      (run : Outcome A × Sink) (f : A → Sends B) (first : Runs cache s before middle value run)
      → Runs cache first.sink middle after result (f value first.sink)
      → Runs cache s before after result (and_then run f)
  Runs-seq s before middle after value result run f first second = record {
    sink = second.sink;
    returns = rw first.returns second.returns;
    stays_open = second.stays_open;
    deltas = first.deltas ++ second.deltas;
    sent =
        second.sent
        ∙ ap (λ t. t ++ requests second.deltas) first.sent
        ∙ append_assoc s.sent (requests first.deltas) (requests second.deltas)
        ∙ ap (λ t. s.sent ++ t) (sym (map-append delta_message first.deltas second.deltas));
    wrote =
        write_deltas-append cache before middle first.deltas second.deltas first.wrote
        ∙ second.wrote;
  }

  pub Runs-bind :
      {A B : Type 0} (s : Sink) (before middle after : Bytes) (value : A) (result : B)
      (run : Outcome A × Sink) (f : A → Sends B)
      → Runs cache s before middle value run
      → ((s' : Sink) → s'.closes ≡ none → Runs cache s' middle after result (f value s'))
      → Runs cache s before after result (and_then run f)
  Runs-bind s before middle after value result run f first next =
      Runs-seq s before middle after value result run f first (next first.sink first.stays_open)

  -- The same run, written otherwise, and the same file.
  pub Runs-eq :
      {A : Type 0} {s : Sink} {before after after' : Bytes} {value : A}
      {run run' : Outcome A × Sink}
      → run ≡ run'
      → after ≡ after'
      → Runs cache s before after value run'
      → Runs cache s before after' value run
  Runs-eq {s} {before} {value} {run'} e f r =
      subst₂ (λ file x. Runs cache s before file value x) f (sym e) r
