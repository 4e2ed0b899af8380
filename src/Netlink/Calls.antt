-- ===== src/Netlink/Calls.antt =====
-- What the callbacks are called with.
use conwatch.Prelude.{
  ◌≡◌, refl, ◌≢◌, false, not, ◌||◌, ◌==◌, Option, none, some, List, [], ◌∷◌, ◌++◌, Text,
  if◌then◌else◌, is_empty, arith, Bool-cases, Option-cases, inl, inr,
}
use conwatch.Rtnetlink.{Rtnetlink, messages}
use conwatch.Netlink.{
  Call, change, remove, Handled, extract_if_name, is_operationally_up, report, is_link, is_control,
  handle_messages, handle_message, process_pending_messages,
}

-- A report of a link carries a name.
abbrev pub IsNamed : Call → Type 0
IsNamed (change i name up) = name ≢ []
IsNamed (remove i) = Unit {0}

abbrev pub AllNamed : List Call → Type 0
AllNamed [] = Unit {0}
AllNamed (c ∷ cs) = IsNamed c × AllNamed cs

AllNamed-append : (xs ys : List Call) → AllNamed xs → AllNamed ys → AllNamed (xs ++ ys)
AllNamed-append [] ys a b = b
AllNamed-append (x ∷ xs) ys (n, a) b = (n, AllNamed-append xs ys a b)

module _ (nl : Rtnetlink) where
  report-AllNamed :
      (m : nl.Messages) (name : Text) (rest : Handled)
      → AllNamed rest.calls
      → AllNamed (report nl m name rest).calls
  unfolding report
  report-AllNamed m [] rest a = elim (Bool-cases (nl.nlmsg_type m == nl.rtm_dellink)) [
    | inl gone ↦ rw gone (tt, a)
    | inr there ↦ rw there a
  ]
  report-AllNamed m (c ∷ cs) rest a = elim (Bool-cases (nl.nlmsg_type m == nl.rtm_dellink)) [
    | inl gone ↦ rw gone (tt, a)
    | inr there ↦ rw there ((λ e. cc), a)
  ]

  handle_messages-AllNamed : (ms : List nl.Messages) → AllNamed (handle_messages nl ms).calls
  unfolding handle_messages
  handle_messages-AllNamed [] = tt
  handle_messages-AllNamed (m ∷ ms) =
      let rest = handle_messages-AllNamed ms in
      elim (Bool-cases (is_control nl m)) [
        | inl control ↦ rw control rest
        | inr other ↦ elim (Bool-cases (is_link nl m)) [
          | inl link ↦ elim (Option-cases (extract_if_name nl m)) [
            | inl e ↦ rw (other, link, e) tt
            | inr (name, e) ↦
                rw (other, link, e) (report-AllNamed m name (handle_messages nl ms) rest)
          ]
          | inr no_link ↦ rw (other, no_link) rest
        ]
      ]

  -- Whatever the kernel sends, over any number of buffers, `onChange` is never called with an
  -- empty name.
  pub process_pending_messages-AllNamed :
      (bufs : List nl.Messages) → AllNamed (process_pending_messages nl bufs).calls
  unfolding process_pending_messages handle_message
  process_pending_messages-AllNamed [] = tt
  process_pending_messages-AllNamed (buf ∷ bufs) =
      elim (Bool-cases (handle_message nl buf).thrown) [
        | inl thrown ↦ rw thrown (handle_messages-AllNamed (messages nl buf))
        | inr returned ↦ rw returned (
            AllNamed-append (handle_message nl buf).calls (process_pending_messages nl bufs).calls
              (handle_messages-AllNamed (messages nl buf)) (process_pending_messages-AllNamed bufs))
      ]

  -- The messages that lead to a call: a removal, or a report with a name.
  abbrev pub calls_of : nl.Messages → Option Text → List Call
  calls_of m none = []
  calls_of m (some name) =
      if is_control nl m || not (is_link nl m)
      then []
      else (if nl.nlmsg_type m == nl.rtm_dellink
          then remove (nl.ifi_index m) ∷ []
          else (if is_empty name
              then []
              else change (nl.ifi_index m) name (is_operationally_up nl (nl.ifi_flags m)) ∷ []))

  abbrev pub all_calls : List nl.Messages → List Call
  all_calls [] = []
  all_calls (m ∷ ms) = calls_of m (extract_if_name nl m) ++ all_calls ms

  handle_messages_lem :
      (ms : List nl.Messages)
      → (handle_messages nl ms).thrown ≡ false
      → (handle_messages nl ms).calls ≡ all_calls ms
  unfolding handle_messages report
  handle_messages_lem [] h = refl
  handle_messages_lem (m ∷ ms) h = elim (Option-cases (extract_if_name nl m)) [
    | inl e ↦ ground (arith, handle_messages_lem ms)
    | inr (name, e) ↦ ground (arith, handle_messages_lem ms)
  ]

  pub handle_message_lem :
      (buf : nl.Messages)
      → (handle_message nl buf).thrown ≡ false
      → (handle_message nl buf).calls ≡ all_calls (messages nl buf)
  unfolding handle_message
  handle_message_lem buf h = handle_messages_lem (messages nl buf) h
