-- ===== src/Chat/Transcript.antt =====
-- What a page says to all, and how it comes back in the transcript.
use joshlong_examples.Common.{
  ◌≡◌, refl, ap, ◌∙◌, sym, true, Option, some, none, List, [], ◌∷◌, ◌++◌, map, append_assoc, Text,
  codes,
}
use joshlong_examples.Chat.Adapter.{
  Dwr, callback_function, target_sessions, add_function_call, handle_message,
}
use joshlong_examples.Chat.Server.{
  Room, group_message, direct_message, effect_of, send, with_payload, default_callback,
  get_chat_messages,
}
use joshlong_examples.Chat.Delivery.{called}
use joshlong_examples.Chat.Page.{
  Page, shown_user, click_say, transcript_lines, refresh_chat_transcript,
}

transcript_lines-append :
    (ls ms : List Text) → transcript_lines (ls ++ ms) ≡ transcript_lines ls ++ transcript_lines ms
unfolding transcript_lines
transcript_lines-append [] ms = refl
transcript_lines-append (l ∷ ls) ms =
    ap (λ t. l ++ (codes "<br/>" ++ t)) (transcript_lines-append ls ms)
    ∙ sym (append_assoc l (codes "<br/>" ++ transcript_lines ls) (transcript_lines ms))

abbrev pub message_to_all : Page → Text
message_to_all p = shown_user p ++ (codes ": " ++ p.msg_field)

-- To say something with nobody picked adds the text, behind the user's name, at the end of the room's
-- messages and calls `handleMessage` with it on all sessions; a page that then refreshes its
-- transcript shows what it would have shown before, and the new line last.
pub click_say-refresh :
    (dwr : Dwr) (p q : Page) (r : Room)
    → dwr.has_context ≡ true
    → p.private_message_user ≡ none
    → let after = record r { chat_messages = r.chat_messages ++ message_to_all p ∷ [] } in
      (click_say dwr p r
        ≡ called (codes "handleMessage") (message_to_all p) (map some dwr.all_sessions) after)
      × ((refresh_chat_transcript (click_say dwr p r) q).transcript
          ≡ codes "<div>"
            ++ ((transcript_lines (get_chat_messages r) ++ (message_to_all p ++ codes "<br/>"))
                ++ codes "</div>"))
unfolding click_say group_message send effect_of handle_message add_function_call callback_function
    target_sessions with_payload default_callback refresh_chat_transcript get_chat_messages
    transcript_lines
click_say-refresh dwr p q r c e = (
  said,
  ap (λ (t : Room). codes "<div>" ++ (transcript_lines t.chat_messages ++ codes "</div>")) said
      ∙ ap (λ t. codes "<div>" ++ (t ++ codes "</div>"))
          (transcript_lines-append r.chat_messages (message_to_all p ∷ [])),
)
  where
    said :
        click_say dwr p r
        ≡ called
            (codes "handleMessage")
            (message_to_all p)
            (map some dwr.all_sessions)
            (record r { chat_messages = r.chat_messages ++ message_to_all p ∷ [] })
    said =
        ap
          (λ (o : Option Text). elim o [
            | none ↦ group_message dwr (message_to_all p) r
            | some handle ↦
                direct_message dwr handle
                  (codes "from " ++ (shown_user p ++ (codes ":" ++ p.msg_field))) r
          ])
          e
        ∙ simp (c, dwr.refuses_sessions dwr.all_sessions)
