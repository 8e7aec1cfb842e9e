-- ===== src/Scheduler/Cancel.antt =====
-- What cancel of src/wllm/engine/scheduler.py leaves of a request.
use w_llm.Base.{◌≡◌, refl, ap, ◌∙◌, true, false, none, some, arith, Bool-cases, inl, inr}
use w_llm.Base.Int.{ℤ, int_eq, int_beq_iff}
use w_llm.Base.Dict.{Dict, get, remove, get-remove}
use w_llm.Base.Outcome.{ok}
use w_llm.Kv.Manager.{SequenceState}
use w_llm.Kv.Swap.{discard_swapped}
use w_llm.Kv.Ownership.{Inv, free_sequence-Inv, free_sequence_copies}
use w_llm.Runtime.{Runtime}
use w_llm.Scheduler.{Scheduler, member, remove_first, cancel}

pub get-remove_self : {V : Type 0} (d : Dict ℤ V) (id : ℤ) → get (remove d id) id ≡ none
get-remove_self d id = ground (arith, get-remove d id id, int_beq_iff id id)

module _ {rt : Runtime} where
  -- The host has no copy of the request's blocks.
  abbrev pub NoCopy : ℤ → Scheduler rt → Type 0
  NoCopy id s = (get s.cache.swapped_kv id ≡ none) × (get s.cache.swapped_context_len id ≡ none)

  -- A request stands in one queue of the scheduler at most, once, and has a block table if it runs and
  -- only then, and a copy on the host only if it is swapped out.
  pub record Alone (id : ℤ) (s : Scheduler rt) : Type 0 where
    pub once_running : member id (remove_first id s.running) ≡ false
    pub once_swapped : member id (remove_first id s.swapped) ≡ false
    pub once_waiting : member id (remove_first id s.waiting) ≡ false
    pub running_only :
        member id s.running ≡ true → (member id s.swapped ≡ false) × (member id s.waiting ≡ false)
    pub swapped_only : member id s.swapped ≡ true → member id s.waiting ≡ false
    pub held :
        member id s.running ≡ true → (st : SequenceState) × (get s.cache.sequences id ≡ some st)
    pub unheld : member id s.running ≡ false → get s.cache.sequences id ≡ none
    pub copied : member id s.swapped ≡ false → NoCopy id s

  -- Nothing of the request is left, and the cache is in order.
  pub record Gone (id : ℤ) (s : Scheduler rt) : Type 0 where
    pub not_running : member id s.running ≡ false
    pub not_swapped : member id s.swapped ≡ false
    pub not_waiting : member id s.waiting ≡ false
    pub no_table : get s.cache.sequences id ≡ none
    pub no_copy : NoCopy id s
    pub valid : Inv s.cache

  cancel_running :
      (id : ℤ) (s : Scheduler rt)
      → Alone id s
      → Inv s.cache
      → member id s.running ≡ true
      → ((cancel id s).0 ≡ ok tt) × Gone id (cancel id s).1
  unfolding cancel
  cancel_running id s a v runs =
      let (st, found) = a.held runs in
      let (done, inv, tables) = free_sequence-Inv s.cache id st found v in
      let (same_kv, same_len) = free_sequence_copies s.cache id st found v in
      let (no_swap, no_wait) = a.running_only runs in
      rw (runs, cancel)
        (rw done (
          refl,
          record {
            not_running = a.once_running;
            not_swapped = no_swap;
            not_waiting = no_wait;
            no_table = ap (λ d. get d id) tables ∙ get-remove_self s.cache.sequences id;
            no_copy = (
              ap (λ d. get d id) same_kv ∙ (a.copied no_swap).0,
              ap (λ d. get d id) same_len ∙ (a.copied no_swap).1,
            );
            valid = inv;
          },
        ))

  cancel_swapped :
      (id : ℤ) (s : Scheduler rt)
      → Alone id s
      → Inv s.cache
      → member id s.running ≡ false
      → member id s.swapped ≡ true
      → ((cancel id s).0 ≡ ok tt) × Gone id (cancel id s).1
  unfolding cancel discard_swapped
  cancel_swapped id s a v idle out =
      rw (idle, cancel)
        (rw out (
          refl,
          record {
            not_running = idle;
            not_swapped = a.once_swapped;
            not_waiting = a.swapped_only out;
            no_table = a.unheld idle;
            no_copy = (
              get-remove_self s.cache.swapped_kv id,
              get-remove_self s.cache.swapped_context_len id,
            );
            valid = record {
              books = record {
                owned = v.books.owned;
                indexed = v.books.indexed;
                live = v.books.live;
              };
              distinct = v.distinct;
            };
          },
        ))

  -- Cancelling a request, wherever it stands, returns, takes it out of every queue, and gives its
  -- blocks and its copy on the host back with the cache's books in order.
  pub cancel-Gone :
      (id : ℤ) (s : Scheduler rt)
      → Alone id s
      → Inv s.cache
      → ((cancel id s).0 ≡ ok tt) × Gone id (cancel id s).1
  unfolding cancel
  cancel-Gone id s a v = elim (Bool-cases (member id s.running)) [
    | inl runs ↦ cancel_running id s a v runs
    | inr idle ↦ elim (Bool-cases (member id s.swapped)) [
      | inl out ↦ cancel_swapped id s a v idle out
      | inr in_place ↦ elim (Bool-cases (member id s.waiting)) [
        | inl waits ↦
            rw (idle, cancel)
              (rw in_place (
                rw waits (
                  refl,
                  record {
                    not_running = idle;
                    not_swapped = in_place;
                    not_waiting = a.once_waiting;
                    no_table = a.unheld idle;
                    no_copy = a.copied in_place;
                    valid = v;
                  },
                )))
        | inr unknown ↦
            rw (idle, cancel)
              (rw in_place (
                rw unknown (
                  refl,
                  record {
                    not_running = idle;
                    not_swapped = in_place;
                    not_waiting = unknown;
                    no_table = a.unheld idle;
                    no_copy = a.copied in_place;
                    valid = v;
                  },
                )))
      ]
    ]
  ]
