-- ===== src/AlertHandler/LongAlert.antt =====
-- A long alert, and create_summary_json of src/server/server.c after it.
use shelter_server.Prelude.{
  ℕ, ◌≤◌, ◌<◌, ◌≡◌, refl, ap, ◌∙◌, Bytes, IsText, false, Option, none, some, ◌∷◌, length, ltb,
  arith,
}
use shelter_server.Json.{CJson}
use shelter_server.Supplies.{convert_supplies_to_json}
use shelter_server.Emergency.{update_emergency_info, get_last_event, get_last_keepalived}
use shelter_server.Emergency.Texts.{get-update_emergency_info}
use shelter_server.Server.{Server, fault, deref, crash, ◌>>=◌, bind_outcome}
use shelter_server.Summary.{create_summary_json}
use shelter_server.TcpHandler.{buffer_size}
use shelter_server.AlertHandler.{check_alerts}
use shelter_server.AlertHandler.Delivery.{CanLog, alerted, check_alerts_lem}

-- The last of three pointers is NULL.
third_none :
    {A B D : Type 0} (a : Option A) (b : Option B) (s : Server)
    → (deref a >>= λ x. deref b >>= λ y. crash {A = D}) s ≡ fault
third_none none b s = refl
third_none (some x) none s = refl
third_none (some x) (some y) s = refl

module _ (c : CJson) where
  summary_faults :
      (s : Server) → get_last_event s.emergency_info ≡ none → create_summary_json c s ≡ fault
  unfolding create_summary_json
  summary_faults s e = rw e (
      third_none (convert_supplies_to_json c s.host.alloc s.food s.medicine)
        (get_last_keepalived s.emergency_info) s)

  alerted_faults :
      (message home : Bytes) (s : Server)
      → IsText s.host.clock
      → IsText message
      → 100 ≤ length message
      → create_summary_json c (alerted home message s) ≡ fault
  alerted_faults message home s k t long =
      summary_faults (alerted home message s) (unfold alerted in unread)
    where
      unread : get_last_event (update_emergency_info s.host.clock message) ≡ none
      unread =
          let cut : ltb (length message) 100 ≡ false = ground arith in
          (get-update_emergency_info s.host.clock message k t).1 ∙ rw cut refl

  -- When the server can write its log and has handled an alert of at least 100 bytes, none of them
  -- zero, that is shorter than the buffer of 1024 bytes, the next summary ends in a fault, whatever
  -- the supplies are: it reads past the end of the last event.
  pub summary_after_long_alert :
      (b : ℕ) (bs home : Bytes) (s : Server)
      → CanLog home s
      → IsText s.host.clock
      → IsText (b ∷ bs)
      → 100 ≤ length (b ∷ bs)
      → length (b ∷ bs) < buffer_size
      → bind_outcome (check_alerts (some (some (b ∷ bs))) s) (λ _. create_summary_json c) ≡ fault
  summary_after_long_alert b bs home s h k t long short =
      ap (λ o. bind_outcome o (λ _. create_summary_json c)) (check_alerts_lem b bs home s h t short)
      ∙ alerted_faults (b ∷ bs) home s k t long
