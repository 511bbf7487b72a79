-- ===== src/Tests/Threads.antt =====
-- Theorems about threads that interleave, at the sample mailbox.
use pop3sf.Prelude.{◌≡◌, refl, ℕ}
use pop3sf.Adapter.{Adapter}
use pop3sf.Adapters.ListAdapter.{ListState}
use pop3sf.Locking.Bracketing.{mark_message_as_deleted, get_message_count}
use pop3sf.Locking.Threads.{
  System, Reach, start, later, begin, acquire, finish, release, idle, begin_call, acquire_lock,
  finish_call, release_lock, replay, Reach-unique, Reach-replay,
}
use pop3sf.Tests.Samples.{sample_mailbox, sample_env}

abbrev both : ℕ → Adapter ListState
both i = sample_env.adapter

abbrev two_calling : System ListState
two_calling =
    begin_call both 2 get_message_count
      (begin_call both 1 (mark_message_as_deleted 0) (idle sample_mailbox))

abbrev one_trying : System ListState
one_trying = acquire_lock both 1 (mark_message_as_deleted 0) two_calling

abbrev one_done : System ListState
one_done =
    release_lock both 1 (finish_call both 1 (mark_message_as_deleted 0) sample_mailbox one_trying)

abbrev two_trying : System ListState
two_trying = acquire_lock both 2 get_message_count one_done

two_trying-reached : Reach both sample_mailbox two_trying
two_trying-reached =
    later
      (later
        (later
          (later
            (later (later start (begin 1 (mark_message_as_deleted 0) refl refl))
              (begin 2 get_message_count refl refl))
            (acquire 1 (mark_message_as_deleted 0) refl refl refl))
          (finish 1 (mark_message_as_deleted 0) sample_mailbox refl refl))
        (release 1 refl refl))
      (acquire 2 get_message_count refl refl refl)

Reach-unique_example : ◌≡◌ {A = ℕ} 2 2
Reach-unique_example = Reach-unique both two_trying-reached 2 2 refl refl

Reach-replay_example :
    replay both two_trying.calls sample_mailbox ≡ (two_trying.results, two_trying.world)
Reach-replay_example = Reach-replay both two_trying-reached
