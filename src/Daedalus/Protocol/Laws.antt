-- ===== src/Daedalus/Protocol/Laws.antt =====
-- What a command frame holds.
use delonghi_ha.Prelude.{
  [], ◌∷◌, Bool, true, false, ◌||◌, String, str_eq, eq_iff, Option, none, some, if◌then◌else◌, ◌≡◌,
  refl, sym, ap, ◌∙◌, arith, if_rule,
}
use delonghi_ha.Prelude.Int.{ℤ}
use delonghi_ha.Prelude.Dict.{Dict, lookup, insert, lookup-insert}
use delonghi_ha.Daedalus.Protocol.{
  Value, text, number, is_reserved, overlaps, update_frame, build_command_frame,
}

no_overlap :
    (key : String) (value : Value) (params : Dict Value)
    → overlaps ((key, value) ∷ params) ≡ false
    → (is_reserved key ≡ false) × (overlaps params ≡ false)
unfolding overlaps
no_overlap key value params h = parts (is_reserved key) (overlaps params) h
  where
    parts : (a b : Bool) → (a || b) ≡ false → (a ≡ false) × (b ≡ false)
    parts true b e = absurd (ground (arith, e))
    parts false b e = (refl, e)

-- A reserved key keeps its value.
update_frame-reserved :
    (params body : Dict Value) (name : String)
    → is_reserved name ≡ true
    → overlaps params ≡ false
    → lookup name (update_frame params body) ≡ lookup name body
unfolding update_frame
update_frame-reserved [] body name r h = refl
update_frame-reserved ((key, value) ∷ params) body name r h =
    let parts = no_overlap key value params h in
    update_frame-reserved params (insert key value body) name r parts.1
    ∙ lookup-insert body key name value
    ∙ if_rule (λ (o : Option Value). o ≡ lookup name body) (str_eq name key)
        (λ e. absurd (clash (sym r ∙ ap is_reserved ((eq_iff name key).0 e) ∙ parts.0))) (λ e. refl)
  where
    clash : true ≡ false → ⊥
    clash e = ground (arith, e)

-- A frame is refused exactly if the parameters hold a reserved key; and a frame that is built has the
-- message, the connection and the request as they were given, whatever the parameters are.
pub record FrameHolds (message : String) (connection_id : ℤ) (request_id : String)
    (params : Dict Value) (frame : Option (Dict Value)) : Type 0 where
  pub refused : overlaps params ≡ true → frame ≡ none
  pub built :
      overlaps params ≡ false
      → (body : Dict Value) × (frame ≡ some body)
        × (lookup "Message" body ≡ some (text message))
        × (lookup "ConnectionId" body ≡ some (number connection_id))
        × (lookup "RequestId" body ≡ some (text request_id))

pub build_command_frame-FrameHolds :
    (message : String) (connection_id : ℤ) (request_id : String) (params : Dict Value)
    → FrameHolds message connection_id request_id params
        (build_command_frame message connection_id request_id params)
unfolding build_command_frame is_reserved lookup
build_command_frame-FrameHolds message connection_id request_id params = record {
  refused = λ e. ap (λ b. if b then none else some (update_frame params body)) e;
  built = λ e. (
    update_frame params body,
    ap (λ b. if b then none else some (update_frame params body)) e,
    update_frame-reserved params body "Message" refl e,
    update_frame-reserved params body "ConnectionId" refl e,
    update_frame-reserved params body "RequestId" refl e,
  );
}
  where
    body : Dict Value
    body =
        ("Message", text message)
        ∷ ("ConnectionId", number connection_id)
        ∷ ("RequestId", text request_id)
        ∷ []
