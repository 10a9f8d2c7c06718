-- ===== src/Email/Sent.antt =====
-- email.go: when a message is sent, and when the password is protected on the way.
use my_sql_backup.Base.{◌≡◌, refl, ap, ◌⊎◌, inl, inr, Bool, true, false, List, [], ◌∷◌, ◌++◌, arith}
use my_sql_backup.Base.Tests.{if◌then◌else◌, Bool-cases}
use my_sql_backup.Base.Lists.{All, is_empty}
use my_sql_backup.Base.Texts.{Text, codes, text_eq}
use my_sql_backup.Base.Results.{Result, ok, err}
use my_sql_backup.Email.{
  MailConfig, Call, tls_dial, net_dial, new_client, start_tls, auth, mail, rcpt, begin_text,
  write_text, close_text, quit, send_mail, addr_of, auth_user, tls_mode, mail_text, send_tls,
  send_starttls, calls_for, perform, send,
}

-- Whether the password is sent where TLS has not begun; `protected` says whether it has.
abbrev pub is_bare : (protected : Bool) → List Call → Bool
is_bare protected [] = false
is_bare protected (tls_dial a ∷ cs) = is_bare true cs
is_bare protected (start_tls ∷ cs) = is_bare true cs
is_bare protected (auth u ∷ cs) = if protected then is_bare true cs else true
is_bare protected (net_dial a ∷ cs) = is_bare protected cs
is_bare protected (new_client ∷ cs) = is_bare protected cs
is_bare protected (mail a ∷ cs) = is_bare protected cs
is_bare protected (rcpt a ∷ cs) = is_bare protected cs
is_bare protected (begin_text ∷ cs) = is_bare protected cs
is_bare protected (write_text t ∷ cs) = is_bare protected cs
is_bare protected (close_text ∷ cs) = is_bare protected cs
is_bare protected (quit ∷ cs) = is_bare protected cs
is_bare protected (send_mail a u t ∷ cs) = is_bare protected cs

-- All calls were made and answered, or all up to one that failed, and with it the sending.
abbrev pub Performed : (answers : Call → Bool) → List Call → Result (Unit {0}) × List Call → Type 0
Performed answers cs (ok u, made) = (made ≡ cs) × All (λ c. answers c ≡ true) cs
Performed answers cs (err e, made) =
    (before : List Call) × (c : Call) × (after : List Call) × (cs ≡ before ++ c ∷ after)
    × (made ≡ before ++ c ∷ [])
    × All (λ b. answers b ≡ true) before
    × (answers c ≡ false)

next-Performed :
    (answers : Call → Bool) (c : Call) (cs : List Call) (r : Result (Unit {0}) × List Call)
    → answers c ≡ true
    → Performed answers cs r
    → Performed answers (c ∷ cs) (r.0, c ∷ r.1)
next-Performed answers c cs (ok u, made) h (m, a) = (ap (λ l. c ∷ l) m, (h, a))
next-Performed answers c cs (err e, made) h (before, d, after, q, m, a, n) =
    (c ∷ before, d, after, ap (λ l. c ∷ l) q, ap (λ l. c ∷ l) m, (h, a), n)

perform-Performed :
    (answers : Call → Bool) (cs : List Call) → Performed answers cs (perform answers cs)
unfolding perform
perform-Performed answers [] = (refl, tt)
perform-Performed answers (c ∷ cs) = elim (Bool-cases (answers c)) [
  | inl y ↦ rw y (next-Performed answers c cs (perform answers cs) y (perform-Performed answers cs))
  | inr n ↦ rw n ([], c, cs, refl, refl, tt, n)
]

is_bare-perform :
    (answers : Call → Bool) (p : Bool) (cs : List Call)
    → is_bare p cs ≡ false
    → is_bare p (perform answers cs).1 ≡ false
unfolding perform
is_bare-perform answers p [] h = refl
is_bare-perform answers p (tls_dial a ∷ cs) h = ground (arith, is_bare-perform answers true cs)
is_bare-perform answers p (start_tls ∷ cs) h = ground (arith, is_bare-perform answers true cs)
is_bare-perform answers p (net_dial a ∷ cs) h = ground (arith, is_bare-perform answers p cs)
is_bare-perform answers p (new_client ∷ cs) h = ground (arith, is_bare-perform answers p cs)
is_bare-perform answers p (mail a ∷ cs) h = ground (arith, is_bare-perform answers p cs)
is_bare-perform answers p (rcpt a ∷ cs) h = ground (arith, is_bare-perform answers p cs)
is_bare-perform answers p (begin_text ∷ cs) h = ground (arith, is_bare-perform answers p cs)
is_bare-perform answers p (write_text t ∷ cs) h = ground (arith, is_bare-perform answers p cs)
is_bare-perform answers p (close_text ∷ cs) h = ground (arith, is_bare-perform answers p cs)
is_bare-perform answers p (quit ∷ cs) h = ground (arith, is_bare-perform answers p cs)
is_bare-perform answers p (send_mail a u t ∷ cs) h = ground (arith, is_bare-perform answers p cs)
is_bare-perform answers true (auth u ∷ cs) h = ground (arith, is_bare-perform answers true cs)
is_bare-perform answers false (auth u ∷ cs) h = ground arith

-- The mode protects the password: TLS from the start, or the server's offer of it.
abbrev pub IsProtected : (offered : Bool) → MailConfig → Type 0
IsProtected offered cfg =
    (text_eq (tls_mode cfg) (codes "tls") ≡ true)
    ⊎ ((text_eq (tls_mode cfg) (codes "tls") ≡ false)
        × (text_eq (tls_mode cfg) (codes "starttls") ≡ true)
        × (offered ≡ true))

-- The calls that send a message under TLS, in the order of the protocol: TLS from the start, or
-- after the server was greeted.
abbrev pub protocol : (from_start : Bool) → MailConfig → Text → List Call
protocol from_start cfg text =
    (if from_start
      then tls_dial (addr_of cfg) ∷ new_client ∷ []
      else net_dial (addr_of cfg) ∷ new_client ∷ start_tls ∷ [])
    ++ auth (auth_user cfg)
      ∷ mail cfg.admin_email
      ∷ rcpt cfg.admin_email
      ∷ begin_text
      ∷ write_text text
      ∷ close_text
      ∷ quit
      ∷ []

protected_calls :
    (offered : Bool) (cfg : MailConfig) (text : Text)
    → IsProtected offered cfg
    → calls_for (tls_mode cfg) offered cfg text
      ≡ protocol (text_eq (tls_mode cfg) (codes "tls")) cfg text
unfolding calls_for send_tls send_starttls
protected_calls offered cfg text (inl t) = rw t refl
protected_calls offered cfg text (inr (n, s, o)) = rw (n, s, o) refl

is_bare-protocol :
    (from_start : Bool) (cfg : MailConfig) (text : Text)
    → is_bare false (protocol from_start cfg text) ≡ false
is_bare-protocol true cfg text = refl
is_bare-protocol false cfg text = refl

-- Where an address and a server are configured and the mode is `tls`, or `starttls` with a server
-- that offers it: a sending that succeeds has made the calls of the protocol, from the connection,
-- the login, the sender and the recipient to the text and the end, and each succeeded; one that
-- fails has made the calls up to the first that failed. The password is sent under TLS only.
pub send-Performed :
    (answers : Call → Bool) (offered : Bool) (cfg : MailConfig) (subject body : Text)
    → is_empty cfg.admin_email ≡ false
    → is_empty cfg.admin_smtp_server ≡ false
    → IsProtected offered cfg
    → Performed answers
        (protocol (text_eq (tls_mode cfg) (codes "tls")) cfg (mail_text cfg subject body))
        (send answers offered cfg subject body)
      × (is_bare false (send answers offered cfg subject body).1 ≡ false)
unfolding send
send-Performed answers offered cfg subject body a s p =
    let from_start = text_eq (tls_mode cfg) (codes "tls") in
    let text = mail_text cfg subject body in
    let calls = protocol from_start cfg text in
    rw (a, s, protected_calls offered cfg text p)
      (
        perform-Performed answers calls,
        is_bare-perform answers false calls (is_bare-protocol from_start cfg text),
      )
