-- ===== src/Notifications/Sending.antt =====
-- What a mail job writes.
use tickethub_backend.Common.{
  suc, ◌+◌, ◌≡◌, refl, inl, inr, String, Option, none, some, [], ◌∷◌, ◌++◌, any, Bool-cases, arith,
}
use tickethub_backend.Platform.{Platform, IsLawful}
use tickethub_backend.Errors.{Failure, unique_violation, Result, ok, err}
use tickethub_backend.World.{World, Action}
use tickethub_backend.World.People.{
  NotificationRow, NotificationStatus, NotificationChannel, same_notification,
}
use tickethub_backend.Notifications.{NotificationJob, Mail, sent_row, insert_notification, deliver}

module _ ⦃p : Platform⦄ (L : IsLawful p)
    (send_mail : (to : String) → Mail → Action (Unit {0})) where
  -- The row of a mail that went out: it is SENT, by mail, to the job's recipient, with the mail's
  -- subject and text, and counts one attempt more than were made before.
  pub record IsSent (job : NotificationJob) (mail : Mail) (sent : World) (row : NotificationRow)
      : Type 0 where
    pub is_sent : row.status ≡ NotificationStatus.sent
    pub by_mail : row.channel ≡ NotificationChannel.email
    pub of_recipient : row.recipient_id ≡ job.recipient_id
    pub of_type : row.type ≡ job.type
    pub of_subject : row.subject ≡ some mail.subject
    pub of_body : row.body ≡ mail.html
    pub attempts_made : row.attempts ≡ job.attempts_made + 1
    pub at : row.sent_at ≡ some (p.clock sent.readings)

  -- The ends of a delivery, from the state that sending leaves.
  abbrev pub DeliverOutcome :
      NotificationJob → Mail → Result (Unit {0}) × World → Result (Unit {0}) × World → Type 0
  DeliverOutcome job mail (err e, sent) o = o ≡ (err e, sent)
  DeliverOutcome job mail (ok _, sent) (err e, w') =
      (e ≡ unique_violation "notifications") × (p.rows w'.notifications ≡ p.rows sent.notifications)
  DeliverOutcome job mail (ok _, sent) (ok _, w') =
      (row : NotificationRow) × IsSent job mail sent row
      × (p.rows w'.notifications ≡ p.rows sent.notifications ++ row ∷ [])

  delivered :
      (job : NotificationJob) (to : String) (mail : Mail) (w sent : World)
      → send_mail to mail w ≡ (ok tt, sent)
      → (t : Option (p.Table NotificationRow))
      → p.create same_notification
          (sent_row send_mail job mail (p.uuid sent.drawn) (p.clock sent.readings))
          sent.notifications
        ≡ t
      → deliver send_mail job to mail w ≡ elim t [
        | none ↦ (
          err (unique_violation "notifications"),
          record sent { readings = suc sent.readings; drawn = suc sent.drawn },
        )
        | some t' ↦ (
          ok tt,
          record sent { readings = suc sent.readings; drawn = suc sent.drawn; notifications = t' },
        )
      ]
  unfolding deliver insert_notification
  delivered job to mail w sent h none k = ground arith
  delivered job to mail w sent h (some t') k = ground arith

  undelivered :
      (job : NotificationJob) (to : String) (mail : Mail) (w sent : World) (e : Failure)
      → send_mail to mail w ≡ (err e, sent)
      → deliver send_mail job to mail w ≡ (err e, sent)
  unfolding deliver
  undelivered job to mail w sent e h = ground arith

  outcome_of :
      (job : NotificationJob) (to : String) (mail : Mail) (w : World)
      (o : Result (Unit {0}) × World)
      → send_mail to mail w ≡ o
      → DeliverOutcome job mail o (deliver send_mail job to mail w)
  outcome_of job to mail w (err e, sent) h = undelivered job to mail w sent e h
  outcome_of job to mail w (ok tt, sent) h =
      let row = sent_row send_mail job mail (p.uuid sent.drawn) (p.clock sent.readings) in
      elim (Bool-cases (any (same_notification row) (p.rows sent.notifications))) [
        | inl clash ↦
            rw
              (delivered job to mail w sent h none
                (L.create_clash same_notification row sent.notifications clash))
              (refl, refl)
        | inr fresh ↦
            let (t, made, grown) = L.create_fresh same_notification row sent.notifications fresh in
            rw (delivered job to mail w sent h (some t) made) (
              row,
              record {
                is_sent = refl;
                by_mail = refl;
                of_recipient = refl;
                of_type = refl;
                of_subject = refl;
                of_body = refl;
                attempts_made = refl;
                at = refl;
              },
              grown,
            )
      ]

  -- A mail is recorded only after it was sent, in one new row that is SENT, has the job's recipient
  -- and type and the mail's subject and text, and counts one attempt more; if the transporter throws
  -- nothing is recorded, and if the row cannot be written the job throws though the mail is out.
  pub deliver-Outcome :
      (job : NotificationJob) (to : String) (mail : Mail) (w : World)
      → DeliverOutcome job mail (send_mail to mail w) (deliver send_mail job to mail w)
  deliver-Outcome job to mail w = outcome_of job to mail w (send_mail to mail w) refl
