-- ===== src/Delivery/Examples.antt =====
-- Delivering one message of a session.
use pocketclaw_telegram.Delivery.Cards.{Permitted, deliver_message-Permitted}
use pocketclaw_telegram.Delivery.Drain.{Desk, record_attempt, deliver_one}
use pocketclaw_telegram.Delivery.Attempts.{Recorded, record_attempt-Recorded}
use pocketclaw_telegram.Delivery.Retries.{Counted, GivenUp, three_failures_settle}
use pocketclaw_telegram.Delivery.Message.{
  deliver_parsed, deliver_to_channel, delivery_group, may_send, Channels, deliver_message,
}
use pocketclaw_telegram.Fixtures.{
  files, office, approvals_desk, env, world, out_row, session_a, channels, inbox,
}
use pocketclaw_telegram.World.{World, threw, sent, get_messaging_group}
use pocketclaw_telegram.Delivery.Questions.{track_question}
use pocketclaw_telegram.Prelude.{[], some, none, ℕ, zero, suc, ◌++◌, ◌∷◌, refl}
use pocketclaw_telegram.Delivery.Polls.Exclusion.{IsGuarded, Reachable-IsGuarded}
use pocketclaw_telegram.Delivery.Polls.{begin_drain, no_polls, step, start, begins}

-- The channels of the tests already have the approvals module behind the routes.
deliver_message-Permitted_example :
    Permitted files.outbox_dir files.readable approvals_desk office env channels out_row session_a
      world
      (deliver_message env (some channels) out_row session_a world)
deliver_message-Permitted_example =
    deliver_message-Permitted files.outbox_dir files.readable approvals_desk office env channels
      out_row session_a world refl

abbrev desk : Desk
desk = record { world = world; attempts = []; inflight = [] }

record_attempt-Recorded_example :
    Recorded out_row session_a desk
      (threw world)
      (record_attempt out_row session_a desk (threw world))
record_attempt-Recorded_example =
    record_attempt-Recorded out_row session_a desk (threw world) inbox refl

-- The platform rejects every message.
abbrev rejecting : Channels
rejecting = record channels { deliver = λ w m instance_name. none }

-- The world after `n` more calls of the adapter.
abbrev called : ℕ → World → World
called zero w = w
called (suc n) w = called n (record w { effects = w.effects ++ sent out_row "telegram" ∷ [] })

abbrev counted : ℕ → World → Desk
counted n w = record desk { world = w; attempts = ("o-1", n) ∷ [] }

three_failures_settle_example :
    Counted env
      (some rejecting)
      out_row
      session_a
      1
      (called 1 world)
      (deliver_one env (some rejecting) out_row session_a desk)
    × Counted env
        (some rejecting)
        out_row
        session_a
        2
        (called 2 world)
        (deliver_one env (some rejecting) out_row session_a (counted 1 (called 1 world)))
    × GivenUp env
        (some rejecting)
        out_row
        session_a
        (called 3 world)
        (deliver_one env (some rejecting) out_row session_a (counted 2 (called 2 world)))
unfolding deliver_message deliver_one record_attempt deliver_parsed deliver_to_channel
    delivery_group get_messaging_group may_send track_question
three_failures_settle_example =
    three_failures_settle env (some rejecting) out_row session_a desk (counted 1 (called 1 world))
      (counted 2 (called 2 world)) (called 1 world) (called 2 world) (called 3 world) inbox inbox
      inbox refl refl refl refl refl refl refl refl refl

-- A second poll of a session that is being drained.
Reachable-IsGuarded_example : IsGuarded (begin_drain 2 "s-a" (begin_drain 1 "s-a" no_polls))
Reachable-IsGuarded_example =
    Reachable-IsGuarded (begin_drain 2 "s-a" (begin_drain 1 "s-a" no_polls))
      (step (step start (begins 1 "s-a" no_polls)) (begins 2 "s-a" (begin_drain 1 "s-a" no_polls)))
