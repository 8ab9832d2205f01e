-- ===== src/Approvals/Request/Held.antt =====
-- `requestApproval` of src/modules/approvals/primitive.ts as a caller sees it that works on the
-- central database and the sessions: what it writes there, the cards that it sends, and its throws.
use pocketclaw_telegram.Approvals.{Office, Ended, Card, ended, broke, RequestApprovalOptions}
use pocketclaw_telegram.Approvals.Request.{RequestDesk, request_approval}
use pocketclaw_telegram.World.{World, Ran, M, ok, threw, Effect, card_sent}
use pocketclaw_telegram.Prelude.{map, ◌++◌, []}

abbrev pub card_effect : Card → Effect
card_effect card = card_sent card.channel_type card.platform_id card.question_id

-- The world of an office that had sent no card before.
abbrev pub with_cards : Office → World
with_cards o = record o.world { effects = o.world.effects ++ map card_effect o.cards }

abbrev pub seen : Ended (Unit {0}) → Ran (Unit {0})
seen (ended u o) = ok u (with_cards o)
seen (broke o) = threw (with_cards o)

-- The request, made of an office with the rows of `o`, in the caller's world.
abbrev pub requests : RequestDesk → Office → RequestApprovalOptions → M (Unit {0})
requests desk o opts w = seen (request_approval desk opts (record o { world = w; cards = [] }))
