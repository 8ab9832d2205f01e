-- ===== src/Delivery/Retries.antt =====
-- The retries of src/delivery.ts: three attempts at one message that throw.
use pocketclaw_telegram.Prelude.{
  Option, ◌≡◌, some, none, ◌+◌, arith, ap, ◌∙◌, sym, subst, inl, inr, ◌<◌, ℕ, String,
}
use pocketclaw_telegram.World.{World, Env, Ran, threw, lookup_db}
use pocketclaw_telegram.SessionDb.{InboundDb, MessageOut, delivery_failed}
use pocketclaw_telegram.Types.{Session}
use pocketclaw_telegram.Delivery.Message.{Channels, deliver_message}
use pocketclaw_telegram.Delivery.Drain.{
  Desk, attempts_of, deliver_one, record_attempt, max_delivery_attempts,
}
use pocketclaw_telegram.Delivery.Attempts.{Marked, Recorded, record_attempt-Recorded}

module _ (env : Env) (channels : Option Channels) (msg : MessageOut) (s : Session) where
  failed-Recorded :
      (d : Desk) (w : World) (db : InboundDb)
      → deliver_message env channels msg s d.world ≡ threw w
      → lookup_db s.id w.inboxes ≡ some db
      → Recorded msg s d (threw w) (deliver_one env channels msg s d)
  unfolding deliver_one
  failed-Recorded d w db fails inbox =
      subst (λ (r : Ran (Option String)). Recorded msg s d (threw w) (record_attempt msg s d r))
        (sym fails) (record_attempt-Recorded msg s d (threw w) db inbox)

  -- The failure is counted, and the attempt's world is kept.
  abbrev pub Counted : ℕ → World → Desk → Type 0
  Counted n w after = (after.world ≡ w) × (attempts_of after.attempts msg.id ≡ n)

  -- The message has a row, 'failed' where it had none, and its failures are forgotten.
  abbrev pub GivenUp : World → Desk → Type 0
  GivenUp w after =
      Marked delivery_failed none msg.id s w after.world × (attempts_of after.attempts msg.id ≡ 0)

  early-Counted :
      (d : Desk) (w : World) (db : InboundDb) (n : ℕ)
      → deliver_message env channels msg s d.world ≡ threw w
      → lookup_db s.id w.inboxes ≡ some db
      → attempts_of d.attempts msg.id ≡ n
      → n + 1 < max_delivery_attempts
      → Counted (n + 1) w (deliver_one env channels msg s d)
  early-Counted d w db n fails inbox count below = elim (failed-Recorded d w db fails inbox) [
    | inl (_, same, more) ↦ (same, more ∙ ap (λ k. k + 1) count)
    | inr (last, _, _) ↦ absurd (omega (arith, count))
  ]

  -- Three attempts at a message that throw, with no failure counted before the first and the count
  -- kept from each to the next, whatever else happens between them and whatever each of them wrote
  -- before it threw: the first two leave the world exactly as the attempt left it, with counts 1 and
  -- 2; the third adds one row of the message, 'failed', unless it had a row, and forgets the count.
  -- The session's inbound database is there after each attempt.
  pub three_failures_settle :
      (a b c : Desk) (wa wb wc : World) (dba dbb dbc : InboundDb)
      → deliver_message env channels msg s a.world ≡ threw wa
      → deliver_message env channels msg s b.world ≡ threw wb
      → deliver_message env channels msg s c.world ≡ threw wc
      → lookup_db s.id wa.inboxes ≡ some dba
      → lookup_db s.id wb.inboxes ≡ some dbb
      → lookup_db s.id wc.inboxes ≡ some dbc
      → attempts_of a.attempts msg.id ≡ 0
      → attempts_of b.attempts msg.id
        ≡ attempts_of (deliver_one env channels msg s a).attempts msg.id
      → attempts_of c.attempts msg.id
        ≡ attempts_of (deliver_one env channels msg s b).attempts msg.id
      → Counted 1 wa (deliver_one env channels msg s a)
        × Counted 2 wb (deliver_one env channels msg s b)
        × GivenUp wc (deliver_one env channels msg s c)
  three_failures_settle a b c wa wb wc dba dbb dbc fa fb fc ia ib ic fresh ab bc =
      let first = early-Counted a wa dba 0 fa ia fresh (omega arith) in
      let second = early-Counted b wb dbb 1 fb ib (ab ∙ first.1) (omega arith) in
      let two : attempts_of c.attempts msg.id ≡ 2 = bc ∙ second.1 in
      (first, second, last two (failed-Recorded c wc dbc fc ic))
    where
      last :
          attempts_of c.attempts msg.id ≡ 2
          → Recorded msg s c (threw wc) (deliver_one env channels msg s c)
          → GivenUp wc (deliver_one env channels msg s c)
      last two (inl (below, _, _)) = absurd (omega (arith, two, below))
      last two (inr (_, marked, forgotten)) = (marked, forgotten)
