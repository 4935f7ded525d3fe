-- ===== src/Rtsp/Delivery.antt =====
-- What `send_nonblock_locked` of board/src/rtsp_server.c has written when it ends.
use hispark_soc_china.Prelude.{
  ℕ, zero, suc, ◌+◌, ◌≡◌, refl, ap, ◌∙◌, Bool, true, false, none, List, [], ◌∷◌, ◌++◌, take, drop,
  take-append-drop, append_assoc, arith, ◌⊎◌, inl, inr, if◌then◌else◌, ltb, ◌&&◌,
}
use hispark_soc_china.Rtsp.State.{
  Session, SendEvent, wrote, intr, again, failed, Outcome, done, lost, waiting, close_client,
}
use hispark_soc_china.Rtsp.Send.{SendRun, send_loop, settle, send_nonblock}

-- What a run has written stands at the front of what it was given, and is all of it if the run
-- ends well.
pub record Fits (r : SendRun) (given : List ℕ) : Type 0 where
  pub tail : List ℕ
  pub split : r.bytes ++ tail ≡ given
  pub whole : r.outcome ≡ done → tail ≡ []

abbrev nothing_written : (evs : List SendEvent) (o : Outcome) (bs : List ℕ) → SendRun
nothing_written evs o bs = record { rest = evs; bytes = []; outcome = o }

Fits-lost : (evs : List SendEvent) (bs : List ℕ) → Fits (nothing_written evs lost bs) bs
Fits-lost evs bs = record { tail = bs; split = refl; whole = λ e. cc }

Fits-wrote :
    (n : ℕ) (b : ℕ) (bs : List ℕ) (r : SendRun)
    → Fits r (drop n bs)
    → Fits
        (record { rest = r.rest; bytes = b ∷ (take n bs ++ r.bytes); outcome = r.outcome })
        (b ∷ bs)
Fits-wrote n b bs r f = record {
  tail = f.tail;
  split =
      ap (λ t. b ∷ t)
        (append_assoc (take n bs) r.bytes f.tail
          ∙ ap (λ t. take n bs ++ t) f.split
          ∙ take-append-drop n bs);
  whole = f.whole;
}

Fits-if :
    (t : Bool) (r q : SendRun) (bs : List ℕ) → Fits r bs → Fits q bs → Fits (if t then r else q) bs
Fits-if true r q bs h k = h
Fits-if false r q bs h k = k

pub send_loop-Fits :
    (evs : List SendEvent) (waits : ℕ) (bs : List ℕ) → Fits (send_loop evs waits bs) bs
unfolding send_loop
send_loop-Fits [] waits [] = record { tail = []; split = refl; whole = λ e. refl }
send_loop-Fits (e ∷ evs) waits [] = record { tail = []; split = refl; whole = λ e. refl }
send_loop-Fits [] waits (b ∷ bs) = record { tail = b ∷ bs; split = refl; whole = λ e. cc }
send_loop-Fits (wrote zero ∷ evs) waits (b ∷ bs) = Fits-lost evs (b ∷ bs)
send_loop-Fits (wrote (suc n) ∷ evs) waits (b ∷ bs) =
    Fits-wrote n b bs (send_loop evs waits (drop n bs)) (send_loop-Fits evs waits (drop n bs))
send_loop-Fits (intr ∷ evs) waits (b ∷ bs) = send_loop-Fits evs waits (b ∷ bs)
send_loop-Fits (again ready ∷ evs) waits (b ∷ bs) =
    Fits-if (ltb waits 4 && ready) _ _ (b ∷ bs) (send_loop-Fits evs (waits + 1) (b ∷ bs))
      (Fits-lost evs (b ∷ bs))
send_loop-Fits (failed ∷ evs) waits (b ∷ bs) = Fits-lost evs (b ∷ bs)

-- The fields that a send does not touch.
pub record SameStream (s t : Session) : Type 0 where
  pub rtp : t.rtp ≡ s.rtp
  pub fps : t.fps ≡ s.fps

-- What a call of `send_nonblock` leaves: the bytes of a front part on the wire, all of them if it
-- is done; a client that is closed exactly if the call lost it.
pub record Wrote (s : Session) (given : List ℕ) (r : Session × Outcome) : Type 0 where
  pub bytes : List ℕ
  pub tail : List ℕ
  pub split : bytes ++ tail ≡ given
  pub wire : r.0.wire ≡ s.wire ++ bytes
  pub whole : r.1 ≡ done → tail ≡ []
  pub closed : r.1 ≡ lost → (r.0.client_fd ≡ none) × (r.0.playing ≡ false) × (r.0.request_len ≡ 0)
  pub open_still :
      (r.1 ≡ lost)
      ⊎ ((r.0.client_fd ≡ s.client_fd)
          × (r.0.playing ≡ s.playing)
          × (r.0.request_len ≡ s.request_len))
  pub same : SameStream s r.0

settle-Wrote :
    (s : Session) (r : SendRun) (given : List ℕ) → Fits r given → Wrote s given (settle s r)
unfolding settle close_client
settle-Wrote s r given f = go r.outcome refl
  where
    go : (o : Outcome) → r.outcome ≡ o → Wrote s given (settle s r)
    go done e = record {
      bytes = r.bytes;
      tail = f.tail;
      split = f.split;
      wire = ground arith;
      whole = λ h. f.whole e;
      closed = ground arith;
      open_still = inr (ground arith);
      same = record { rtp = ground arith; fps = ground arith };
    }
    go lost e = record {
      bytes = r.bytes;
      tail = f.tail;
      split = f.split;
      wire = ground arith;
      whole = λ h. ground arith;
      closed = ground arith;
      open_still = inl (ground arith);
      same = record { rtp = ground arith; fps = ground arith };
    }
    go waiting e = record {
      bytes = r.bytes;
      tail = f.tail;
      split = f.split;
      wire = ground arith;
      whole = λ h. ground arith;
      closed = ground arith;
      open_still = inr (ground arith);
      same = record { rtp = ground arith; fps = ground arith };
    }

-- Whatever the socket answers, what a call adds to the wire is a front part of the packet, and the
-- whole packet if the call is done; the client is closed if the call lost it, and else kept.
pub send_nonblock-Wrote : (s : Session) (given : List ℕ) → Wrote s given (send_nonblock s given)
unfolding send_nonblock
send_nonblock-Wrote s given =
    settle-Wrote s (send_loop s.sock 0 given) given (send_loop-Fits s.sock 0 given)
