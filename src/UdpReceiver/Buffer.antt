-- ===== src/UdpReceiver/Buffer.antt =====
-- A datagram in the receive buffer: the loop's round on an empty and on a non-empty one.
use ai_solo_coder_task_b.Prelude.{ℕ, zero, suc, ◌<◌, ◌≡◌, refl, List, [], ◌∷◌, arith}
use ai_solo_coder_task_b.Double.{Double}
use ai_solo_coder_task_b.UdpReceiver.{
  JsonParser, Station, buffer_room, fill_buffer, take_bytes, handle_datagram,
}

pub fill_buffer-nil : (room : ℕ) → fill_buffer room [] ≡ []
unfolding fill_buffer
fill_buffer-nil zero = refl
fill_buffer-nil (suc room) = refl

pub fill_buffer-cons :
    (room b : ℕ) (bytes : List ℕ)
    → 0 < room
    → (rest : List ℕ) × (fill_buffer room (b ∷ bytes) ≡ b ∷ rest)
unfolding fill_buffer
fill_buffer-cons zero b bytes h = elim h [ ]
fill_buffer-cons (suc room) b bytes h = (fill_buffer room bytes, refl)

module _ {W J : Type 0} ⦃d : Double W⦄ (json : JsonParser W J) where
  pub handle_datagram-nil : (now : ℕ) (s : Station W) → handle_datagram json (now, []) s ≡ s
  unfolding handle_datagram
  handle_datagram-nil now s = rw (fill_buffer-nil buffer_room, handle_datagram)

  pub handle_datagram-cons :
      (now b : ℕ) (bytes : List ℕ) (s : Station W)
      → handle_datagram json (now, b ∷ bytes) s
        ≡ take_bytes json now (fill_buffer buffer_room (b ∷ bytes)) s
  unfolding handle_datagram
  handle_datagram-cons now b bytes s =
      let (rest, e) = fill_buffer-cons buffer_room b bytes (omega arith) in rw (e, handle_datagram)
