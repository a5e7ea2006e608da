-- ===== src/Central/Report/Reading.antt =====
-- What the report that is read has of its payload.
use snapshot_drive.Prelude.{
  String, ◌≡◌, ok, Result, >>=-eq-ok, >>=-returns, ◌>>=◌, ok_injective, ap, ◌∙◌,
}
use snapshot_drive.Prelude.Json.{Fields}
use snapshot_drive.Prelude.Json
use snapshot_drive.Central.Report.{
  ApplyError, Report, read_report, text_at, dict_at, bind_text, bind_count, attribute_error,
}

-- A step that is read after the event does not change it.
keeps_event {ℓ} :
    {A : Type ℓ} {e : String} (m : Result ApplyError A) {f : A → Result ApplyError Report}
    → ((a : A) (r : Report) → f a ≡ ok r → e ≡ r.event_id)
    → (r : Report) → (m >>= f) ≡ ok r
    → e ≡ r.event_id
keeps_event {e = e} m h = >>=-returns {P = λ (r : Report). e ≡ r.event_id} m h

-- The event of the report is the payload's.
pub read_report-event_id :
    (payload : Fields) (r : Report)
    → read_report payload ≡ ok r
    → text_at "event_id" payload ≡ ok r.event_id
unfolding read_report
read_report-event_id payload r h =
    let (event_id, found, rest) = >>=-eq-ok (text_at "event_id" payload) _ h in
    found
    ∙ ap ok (
        keeps_event (dict_at "operation" payload)
          (λ operation. keeps_event (text_at "op" operation) (λ op.
            keeps_event (text_at "status" operation) (λ status.
              keeps_event (dict_at "target" payload) (λ target.
                keeps_event (Json.or_empty attribute_error "snapshot" payload) (λ snap.
                  keeps_event (Json.or_empty attribute_error "totals" payload) (λ totals.
                    keeps_event (Json.or_empty attribute_error "host_meta" payload) (λ host_meta.
                      keeps_event (text_at "category" target) (λ category.
                        keeps_event (text_at "subkey" target) (λ subkey.
                          keeps_event (text_at "label" target) (λ label.
                            keeps_event (Json.or_empty attribute_error "client" payload) (λ client.
                              keeps_event (bind_text (Json.get_field "entorno" client)) (λ entorno.
                                keeps_event (bind_text (Json.get_field "pais" client)) (λ pais.
                                  keeps_event (bind_text (Json.get_field "started_at" operation))
                                    (λ started_at.
                                      keeps_event (bind_count (Json.get_field "size_bytes" snap))
                                        (λ last.
                                          keeps_event
                                            (bind_count (Json.get_field "size_bytes" totals))
                                            (λ total.
                                              keeps_event
                                                (bind_count (Json.get_field "count_files" totals))
                                                (λ count.
                                                  keeps_event
                                                    (bind_text (Json.get_field "oldest_ts" totals))
                                                    (λ oldest.
                                                      keeps_event
                                                        (bind_text
                                                          (Json.get_field "newest_ts" totals))
                                                        (λ newest.
                                                          keeps_event
                                                            (bind_text (
                                                            Json.get_field "snapctl_version"
                                                            host_meta))
                                                            (λ snapctl.
                                                            keeps_event
                                                            (bind_text (
                                                            Json.get_field "rclone_version"
                                                            host_meta))
                                                            (λ rclone. λ r' e.
                                                            ap (λ (x : Report). x.event_id)
                                                            (ok_injective e))))))))))))))))))))))
          r rest)
