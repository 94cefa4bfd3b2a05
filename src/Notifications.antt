-- ===== src/Notifications.antt =====
-- src/modules/notifications/notifications.worker.ts: the worker that sends mails. The transporter is
-- an argument; so is the text that a field of a job's data is interpolated as.
pub mod Sending
use tickethub_backend.Common.{
  ℕ, suc, ◌+◌, String, ◌<>◌, Bool, Option, none, some, ◌==◌, string_eq, if◌then◌else◌,
}
use tickethub_backend.Platform.{Platform}
use tickethub_backend.Errors.{unique_violation}
use tickethub_backend.World.{
  World, Action, ◌>>=◌, ◌>>◌, pure, gets, modify, or_throw, new_date, uuid,
}
use tickethub_backend.World.People.{
  UserRow, NotificationRow, NotificationChannel, NotificationStatus, same_notification,
}
use tickethub_backend.Shared.Pagination.Keyset.{truthy}

-- `refund_required` is whether that field of the data is truthy.
pub record NotificationJob : Type 0 where
  pub type : String
  pub recipient_id : String
  pub recipient_email : String
  pub data_of : String → String
  pub refund_required : Bool
  pub attempts_made : ℕ

pub record Mail : Type 0 where
  pub subject : String
  pub html : String

booking_confirmed : NotificationJob → Mail
booking_confirmed job = record {
  subject = "Your booking is confirmed! 🎫";
  html =
      "\n      <h1>Booking Confirmed</h1>\n      <p>Your reservation <strong>"
      <> (job.data_of "reservationId"
          <> ("</strong> has been confirmed.</p>\n      <p>Payment ID: "
              <> (job.data_of "paymentId"
                  <> "</p>\n      <p>Your e-tickets will be emailed shortly.</p>\n    ")));
}

booking_cancelled : NotificationJob → Mail
booking_cancelled job = record {
  subject = "Booking cancelled";
  html =
      "\n      <h1>Booking Cancelled</h1>\n      <p>Your reservation <strong>"
      <> (job.data_of "reservationId"
          <> ("</strong> has been cancelled.</p>\n      "
              <> ((if job.refund_required
                    then "<p>A refund will be processed within 5-10 business days.</p>"
                    else "")
                  <> "\n    ")));
}

booking_expired : NotificationJob → Mail
booking_expired job = record {
  subject = "Reservation expired";
  html =
      "\n      <h1>Reservation Expired</h1>\n      <p>Your reservation <strong>"
      <> (job.data_of "reservationId"
          <> ("</strong> has expired because payment was not completed within 10 minutes.</p>\n"
              <> "      <p>The seats have been released and are available for others.</p>\n    "));
}

ticket_ready : NotificationJob → Mail
ticket_ready job = record {
  subject = "Your e-ticket is ready! 🎫";
  html =
      "\n      <h1>E-Ticket Ready</h1>\n      <p>Your ticket for the event is ready.</p>\n      <p>Ticket ID: "
      <> (job.data_of "ticketId"
          <> "</p>\n      <p>Please present the QR code at the entrance.</p>\n    ");
}

event_reminder : NotificationJob → Mail
event_reminder job = record {
  subject = "Reminder: " <> (job.data_of "eventName" <> " is tomorrow!");
  html =
      "\n      <h1>Event Reminder</h1>\n      <p>Don't forget! <strong>"
      <> (job.data_of "eventName"
          <> ("</strong> is happening tomorrow.</p>\n"
              <> "      <p>Make sure to have your QR ticket ready.</p>\n    "));
}

-- `emailTemplates[type]`
unfoldable pub email_template : NotificationJob → Option Mail
unfolding booking_confirmed booking_cancelled booking_expired ticket_ready event_reminder
email_template job =
    if job.type == "BOOKING_CONFIRMED"
    then some (booking_confirmed job)
    else (if job.type == "BOOKING_CANCELLED"
        then some (booking_cancelled job)
        else (if job.type == "BOOKING_EXPIRED"
            then some (booking_expired job)
            else (if job.type == "TICKET_READY"
                then some (ticket_ready job)
                else (if job.type == "EVENT_REMINDER" then some (event_reminder job) else none))))

module _ ⦃p : Platform⦄ (send_mail : (to : String) → Mail → Action (Unit {0})) where
  abbrev pub address_of : Option UserRow → Option String
  address_of none = none
  address_of (some u) = some u.email

  -- The address of the job, or else that of its user.
  recipient : NotificationJob → Option String → Action (Option String)
  recipient job (some email) = pure (some email)
  recipient job none = gets (λ w. address_of (p.find_first (λ u. u.id == job.recipient_id) w.users))

  unfoldable insert_notification : NotificationRow → Action (Unit {0})
  insert_notification row = do
    table ← gets (λ w. p.create same_notification row w.notifications)
    table' ← or_throw table (unique_violation "notifications")
    modify (λ w. record w { notifications = table' })

  -- The row that records a mail.
  abbrev pub sent_row : NotificationJob → Mail → (id : String) → ℕ → NotificationRow
  sent_row job mail id now = record {
    id = id;
    recipient_id = job.recipient_id;
    channel = NotificationChannel.email;
    type = job.type;
    subject = some mail.subject;
    body = mail.html;
    status = NotificationStatus.sent;
    attempts = job.attempts_made + 1;
    sent_at = some now;
  }

  unfoldable pub deliver : NotificationJob → (to : String) → Mail → Action (Unit {0})
  unfolding insert_notification uuid new_date
  deliver job to mail = do
    send_mail to mail
    now ← new_date
    id ← uuid
    insert_notification (sent_row job mail id now)

  -- With the address, if there is one: the template is looked up, and the mail sent.
  with_address : NotificationJob → Option String → Action (Unit {0})
  with_address job none = pure tt
  with_address job (some email) = elim (email_template job) [
    | none ↦ pure tt
    | some mail ↦ deliver job email mail
  ]

  -- The processor of the worker's queue.
  unfoldable pub notify : NotificationJob → Action (Unit {0})
  unfolding recipient with_address
  notify job = do email ← recipient job (truthy (some job.recipient_email)); with_address job email
