-- ===== src/Tests/Stream.antt =====
-- The streams of src/wllm/engine/async_engine.py over the toy model: somebody listens to sequence 7.
use w_llm.Base.{none, ℕ, nat_eq, ◌≡◌, refl, arith, ◌⊎◌, true, false, some, List, [], ◌∷◌, ◌++◌}
use w_llm.Base.Int.{ℤ, pos}
use w_llm.Base.Dict.{get}
use w_llm.Base.Outcome.{ok, runtime_error}
use w_llm.Api.StopStrings.{Text}
use w_llm.Detokenizer.{IncrementalDetokenizer, add_token, add_tokens}
use w_llm.Sequence.{Sequence, is_finished}
use w_llm.Scheduler.{member, remove_first}
use w_llm.Engine.{
  AsyncEngine, delta, failure, pending, failed, running_task, items_of, deltas_of, on_token,
  fail_all_pending,
}
use w_llm.Engine.Report.{Streams, closing, on_token-Streams, on_token-repeats}
use w_llm.Engine.Failure.{fail_all_pending_complete}
use w_llm.Engine.Loop.{release}
use w_llm.Engine.Release.{release-Gone}
use w_llm.Scheduler.Cancel.{Alone, Gone}
use w_llm.Base.Int.{int_eq}
use w_llm.Tests.Cache.{seven, filled-found, filled-Inv}
use w_llm.Tests.Beams.{toy_runtime}
use w_llm.Tests.Preempt.{one_running, seq_seven}

-- One letter for each token.
abbrev letters : List ℕ → Text
letters ts = ts

abbrev sent_one : IncrementalDetokenizer
sent_one = record { token_ids = 4 ∷ []; prev_text = 4 ∷ [] }

abbrev listening : AsyncEngine toy_runtime
listening = record {
  scheduler = one_running;
  next_seq_id = 8;
  queues = pos 7 ∷ [];
  items = (pos 7, delta (4 ∷ []) ∷ []) ∷ [];
  detokenizers = (pos 7, sent_one) ∷ [];
  reported_count = (pos 7, 1) ∷ [];
  next_group_id = 3;
  beam_futures = (2, pending) ∷ [];
  loop_task = running_task;
}

abbrev longer : Sequence ℕ ℕ
longer = record seq_seven { output_token_ids = 4 ∷ 5 ∷ 6 ∷ [] }

listening-Streams : Streams letters {rt = toy_runtime} (pos 7) (4 ∷ []) listening
unfolding get
listening-Streams = record {
  listens = refl;
  detok = sent_one;
  found = refl;
  seen = refl;
  reported = refl;
}

on_token-Streams_example :
    ((on_token {rt = toy_runtime} letters longer listening).0 ≡ ok tt)
    × (items_of (on_token {rt = toy_runtime} letters longer listening).1.items (pos 7)
        ≡ items_of listening.items (pos 7)
          ++ (deltas_of (add_tokens letters (5 ∷ 6 ∷ []) sent_one).0
              ++ closing (is_finished longer)))
    × ((is_finished longer ≡ true)
        ⊎ Streams letters {rt = toy_runtime}
            (pos 7)
            (4 ∷ 5 ∷ 6 ∷ [])
            (on_token {rt = toy_runtime} letters longer listening).1)
unfolding listening-Streams
on_token-Streams_example =
    on_token-Streams letters {rt = toy_runtime} longer (4 ∷ []) (5 ∷ 6 ∷ []) listening
      listening-Streams refl

-- Started over, the sequence has no output; the token 4 is sent a second time.
abbrev restarted : Sequence ℕ ℕ
restarted = record seq_seven { output_token_ids = [] }

on_token-repeats_example :
    let once = (on_token {rt = toy_runtime} letters restarted listening).1 in
    (items_of once.items (pos 7) ≡ delta (4 ∷ []) ∷ [])
    × (items_of
          (on_token {rt = toy_runtime} letters
            (record restarted { output_token_ids = 4 ∷ [] })
            once).1.items
          (pos 7)
        ≡ delta (4 ∷ []) ∷ delta (add_token letters 4 sent_one).0 ∷ [])
unfolding get
on_token-repeats_example =
    on_token-repeats letters {rt = toy_runtime} restarted 4 listening sent_one refl refl
      (omega arith) refl

fail_all_pending_complete_example :
    ((id : ℤ)
      → member id listening.queues ≡ true
      → member id (remove_first id listening.queues) ≡ false
      → items_of (fail_all_pending runtime_error listening).items id
        ≡ items_of listening.items id ++ failure runtime_error ∷ [])
    × ((g : ℕ)
        → get listening.beam_futures g ≡ some pending
        → get (fail_all_pending runtime_error listening).beam_futures g
          ≡ some (failed runtime_error))
    × ((g : ℕ) → ¬ (get (fail_all_pending runtime_error listening).beam_futures g ≡ some pending))
    × ((fail_all_pending runtime_error listening).queues ≡ [])
fail_all_pending_complete_example = fail_all_pending_complete runtime_error listening

seven-Alone : Alone {rt = toy_runtime} (pos 7) one_running
unfolding get
seven-Alone = record {
  once_running = refl;
  once_swapped = refl;
  once_waiting = refl;
  running_only = λ h. (refl, refl);
  swapped_only = λ h. refl;
  held = λ h. (seven, filled-found);
  unheld = λ h. absurd (never h);
  copied = λ h. (refl, refl);
}
  where
    never : ¬ (true ≡ false)
    never = cc

release-Gone_example :
    ((release {rt = toy_runtime} letters false (pos 7) listening).0 ≡ ok tt)
    × Gone {rt = toy_runtime}
        (pos 7)
        (release {rt = toy_runtime} letters false (pos 7) listening).1.scheduler
    × (member (pos 7) (release {rt = toy_runtime} letters false (pos 7) listening).1.queues ≡ false)
    × (get (release {rt = toy_runtime} letters false (pos 7) listening).1.detokenizers (pos 7)
        ≡ none)
    × (get (release {rt = toy_runtime} letters false (pos 7) listening).1.reported_count (pos 7)
        ≡ none)
release-Gone_example =
    release-Gone {rt = toy_runtime} letters (pos 7) listening seven-Alone filled-Inv refl
