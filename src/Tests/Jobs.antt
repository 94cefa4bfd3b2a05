-- ===== src/Tests/Jobs.antt =====
-- A transaction that is tried three times, and a mail.
use tickethub_backend.Common.{ℕ, String, Bool, true, false, some}
use tickethub_backend.Errors.{Failure}
use tickethub_backend.Platform.Memory.{memory, memory-IsLawful}
use tickethub_backend.World.{World, Action, throw, pure}
use tickethub_backend.Shared.Transaction.{exhausted, with_transaction}
use tickethub_backend.Shared.Transaction.Attempts.{IsAttempt, with_transaction-IsAttempt}
use tickethub_backend.Notifications.{NotificationJob, Mail, deliver}
use tickethub_backend.Notifications.Sending.{DeliverOutcome, deliver-Outcome}
use tickethub_backend.Tests.Worlds.{world}

abbrev always : Failure → Bool
always e = true

abbrev nobody : ℕ → World → World
nobody ms w = w

abbrev failing : Action ℕ
failing = throw exhausted

with_transaction-IsAttempt_example :
    IsAttempt always nobody failing 3 1 world
      (with_transaction always nobody failing (some 3) world)
with_transaction-IsAttempt_example = with_transaction-IsAttempt always nobody failing 2 world

abbrev post : String → Mail → Action (Unit {0})
post to mail = pure tt

abbrev reminder : NotificationJob
reminder = record {
  type = "EVENT_REMINDER";
  recipient_id = "u";
  recipient_email = "ada@example.org";
  data_of = λ name. "Concert";
  refund_required = false;
  attempts_made = 0;
}

abbrev mail : Mail
mail = record { subject = "Reminder"; html = "<p>Tomorrow</p>" }

deliver-Outcome_example :
    DeliverOutcome memory-IsLawful post reminder mail
      (post "ada@example.org" mail world)
      (deliver post reminder "ada@example.org" mail world)
deliver-Outcome_example = deliver-Outcome memory-IsLawful post reminder "ada@example.org" mail world
