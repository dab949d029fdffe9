-- ===== src/Emergency/Texts.antt =====
-- What get_last_event and get_last_keepalived read back of what update_emergency_info stored.
use shelter_server.Prelude.{
  ℕ, zero, suc, ◌≤◌, ◌≡◌, refl, Bytes, IsText, strncpy, [], ◌∷◌, ◌++◌, take, replicate, length,
  none, some, ltb, arith, if◌then◌else◌,
}
use shelter_server.Emergency.{c_string, update_emergency_info, get_last_event, get_last_keepalived}

-- Reading the first `n` bytes of a text that at least as many zeros follow.
c_string-take :
    (s : Bytes) (n m : ℕ)
    → n ≤ m
    → IsText s
    → c_string (take n (s ++ replicate m 0)) ≡ (if ltb (length s) n then some s else none)
unfolding c_string
c_string-take [] zero m h t = refl
c_string-take [] (suc n) zero h t = absurd (omega arith)
c_string-take [] (suc n) (suc m) h t = ground arith
c_string-take (b ∷ bs) zero m h t = ground arith
c_string-take (b ∷ bs) (suc n) m h t = ground (arith, c_string-take bs n m (omega arith) t.1)

-- Reading an array of `n` bytes after strncpy.
c_string-strncpy :
    (s : Bytes) (n : ℕ)
    → IsText s
    → c_string (strncpy s n) ≡ (if ltb (length s) n then some s else none)
unfolding strncpy
c_string-strncpy s n t = c_string-take s n n (omega arith) t

-- After update_emergency_info with two texts that hold no zero byte, the time and the event are
-- read back whole as long as they are shorter than their arrays of 30 and of 100 bytes. A longer
-- text leaves its array with no terminating zero, so that reading it runs past the end.
pub get-update_emergency_info :
    (keepalived event : Bytes)
    → IsText keepalived
    → IsText event
    → (get_last_keepalived (update_emergency_info keepalived event)
        ≡ (if ltb (length keepalived) 30 then some keepalived else none))
      × (get_last_event (update_emergency_info keepalived event)
          ≡ (if ltb (length event) 100 then some event else none))
unfolding get_last_keepalived get_last_event update_emergency_info
get-update_emergency_info keepalived event k e =
    (c_string-strncpy keepalived 30 k, c_string-strncpy event 100 e)
