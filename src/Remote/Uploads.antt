-- ===== src/Remote/Uploads.antt =====
-- What a copy leaves on the server, from what the client promises of a file.
use my_sql_backup.Base.{
  ◌≡◌, refl, sym, ap, ◌∙◌, Bool, true, false, Option, none, some, List, [], ◌∷◌, ◌++◌, append-nil,
  append_assoc, arith,
}
use my_sql_backup.Base.Texts.{Text, text_eq}
use my_sql_backup.Remote.{
  Client, Cipher, Source, remote_path, write_parts, next_part, encrypted, stream_encrypt_upload,
  send_file, upload_created, upload_opened, upload_file,
}

text_eq_prefix : (d a b : Text) → text_eq (d ++ a) (d ++ b) ≡ text_eq a b
unfolding text_eq
text_eq_prefix [] a b = refl
text_eq_prefix (c ∷ d) a b = ground (arith, text_eq_prefix d a b)

-- Two files of a directory have different paths.
pub remote_path_apart :
    (dir a b : Text) → text_eq a b ≡ false → text_eq (remote_path dir a) (remote_path dir b) ≡ false
unfolding text_eq
remote_path_apart dir a b h = text_eq_prefix dir (b'/' ∷ a) (b'/' ∷ b) ∙ ground arith

-- What the client promises, where `file` says what a path of the server holds: a file that was
-- created is empty, a write appends, and no call about a path changes another.
pub record ClientLaws {S : Type 0} (client : Client S) (file : S → Text → Option Text)
    : Type 0 where
  pub create_done :
      (p : Text) (s : S) → (client.create p s).0 ≡ true → file (client.create p s).1 p ≡ some []
  pub create_frame :
      (p q : Text) (s : S) → text_eq p q ≡ false → file (client.create p s).1 q ≡ file s q
  pub write_done :
      (p t b : Text) (s : S)
      → file s p ≡ some b
      → (client.write p t s).0 ≡ true
      → file (client.write p t s).1 p ≡ some (b ++ t)
  pub write_frame :
      (p q t : Text) (s : S) → text_eq p q ≡ false → file (client.write p t s).1 q ≡ file s q
  pub remove_frame :
      (p q : Text) (s : S) → text_eq p q ≡ false → file (client.remove p s).1 q ≡ file s q

abbrev pub concat : List Text → Text
concat [] = []
concat (t ∷ ts) = t ++ concat ts

module _ {S : Type 0} (client : Client S) (cipher : Cipher) (source : Source)
    (file : S → Text → Option Text) (laws : ClientLaws client file) where
  next_part-frame :
      (b : Bool) (q : Text) (s : S) (rest : Bool × S) (o : Option Text)
      → file s q ≡ o
      → file rest.1 q ≡ o
      → file (next_part client cipher source b s rest).1 q ≡ o
  next_part-frame true q s rest o h k = k
  next_part-frame false q s rest o h k = h

  write_parts-frame :
      (p q : Text) (ts : List Text) (s : S)
      → text_eq p q ≡ false
      → file (write_parts client cipher source p ts s).1 q ≡ file s q
  unfolding write_parts
  write_parts-frame p q [] s h = refl
  write_parts-frame p q (t ∷ ts) s h =
      next_part-frame (client.write p t s).0 q (client.write p t s).1
        (write_parts client cipher source p ts (client.write p t s).1) (file s q)
        (laws.write_frame p q t s h)
        (write_parts-frame p q ts (client.write p t s).1 h ∙ laws.write_frame p q t s h)

  next_part-done :
      (b : Bool) (s : S) (rest : Bool × S)
      → (next_part client cipher source b s rest).0 ≡ true
      → (b ≡ true) × (rest.0 ≡ true) × (next_part client cipher source b s rest ≡ rest)
  next_part-done true s rest h = (refl, h, refl)
  next_part-done false s rest h = ground arith

  write_parts-done :
      (p : Text) (ts : List Text) (b : Text) (s : S)
      → file s p ≡ some b
      → (write_parts client cipher source p ts s).0 ≡ true
      → file (write_parts client cipher source p ts s).1 p ≡ some (b ++ concat ts)
  unfolding write_parts
  write_parts-done p [] b s h d = h ∙ ap (λ x. some x) (sym (append-nil b))
  write_parts-done p (t ∷ ts) b s h d =
      let w = client.write p t s in
      let rest = write_parts client cipher source p ts w.1 in
      let n = next_part-done w.0 w.1 rest d in
      ap (λ r. file r.1 p) n.2
      ∙ write_parts-done p ts (b ++ t) w.1 (laws.write_done p t b s h n.0) n.1
      ∙ ap (λ x. some x) (append_assoc b t (concat ts))

  -- What stands at a path after a file with the content `text` was sent.
  abbrev pub Sent : (encrypt : Bool) (password text body : Text) → Type 0
  Sent false password text body = body ≡ text
  Sent true password text body =
      (salt : Text) × (nonce : Text) × (body
        ≡ concat (encrypted client cipher source password salt nonce text))

  abbrev pub SentAt : (encrypt : Bool) (password text path : Text) → S → Type 0
  SentAt encrypt password text path s =
      (body : Text) × (file s path ≡ some body) × Sent encrypt password text body

  stream-frame :
      (salt nonce : Option Text) (password p q text : Text) (s : S)
      → text_eq p q ≡ false
      → file (stream_encrypt_upload client cipher source salt nonce password p text s).1 q
        ≡ file s q
  stream-frame none _ password p q text s h = refl
  stream-frame (some salt) none password p q text s h = refl
  stream-frame (some salt) (some nonce) password p q text s h =
      write_parts-frame p q (encrypted client cipher source password salt nonce text) s h

  stream-Sent :
      (salt nonce : Option Text) (password p text : Text) (s : S)
      → file s p ≡ some []
      → (stream_encrypt_upload client cipher source salt nonce password p text s).0 ≡ true
      → SentAt true password text p
          (stream_encrypt_upload client cipher source salt nonce password p text s).1
  stream-Sent none _ password p text s h d = ground arith
  stream-Sent (some salt) none password p text s h d = ground arith
  stream-Sent (some salt) (some nonce) password p text s h d = (
    concat (encrypted client cipher source password salt nonce text),
    write_parts-done p (encrypted client cipher source password salt nonce text) [] s h d,
    (salt, nonce, refl),
  )

  send_file-frame :
      (encrypt : Bool) (password local p q text : Text) (s : S)
      → text_eq p q ≡ false
      → file (send_file client cipher source encrypt password local p text s).1 q ≡ file s q
  send_file-frame false password local p q text s h = laws.write_frame p q text s h
  send_file-frame true password local p q text s h =
      stream-frame (source.salt local) (source.nonce local) password p q text s h

  send_file-Sent :
      (encrypt : Bool) (password local p text : Text) (s : S)
      → file s p ≡ some []
      → (send_file client cipher source encrypt password local p text s).0 ≡ true
      → SentAt encrypt password text p
          (send_file client cipher source encrypt password local p text s).1
  send_file-Sent false password local p text s h d = (text, laws.write_done p text [] s h d, refl)
  send_file-Sent true password local p text s h d =
      stream-Sent (source.salt local) (source.nonce local) password p text s h d

  created-frame :
      (b encrypt : Bool) (password local p q text : Text) (s : S)
      → text_eq p q ≡ false
      → file (upload_created client cipher source b encrypt password local p text s).1 q ≡ file s q
  created-frame true encrypt password local p q text s h =
      send_file-frame encrypt password local p q text s h
  created-frame false encrypt password local p q text s h = refl

  created-Sent :
      (b encrypt : Bool) (password local p text : Text) (s : S)
      → (b ≡ true → file s p ≡ some [])
      → (upload_created client cipher source b encrypt password local p text s).0 ≡ true
      → SentAt encrypt password text p
          (upload_created client cipher source b encrypt password local p text s).1
  created-Sent true encrypt password local p text s h d =
      send_file-Sent encrypt password local p text s (h refl) d
  created-Sent false encrypt password local p text s h d = ground arith

  opened-frame :
      (o : Option Text) (encrypt : Bool) (password local p q : Text) (s : S)
      → text_eq p q ≡ false
      → file (upload_opened client cipher source o encrypt password local p s).1 q ≡ file s q
  opened-frame none encrypt password local p q s h = refl
  opened-frame (some text) encrypt password local p q s h =
      created-frame (client.create p s).0 encrypt password local p q text (client.create p s).1 h
      ∙ laws.create_frame p q s h

  abbrev pub SentFrom : Option Text → (encrypt : Bool) (password path : Text) → S → Type 0
  SentFrom none encrypt password path s = ⊥
  SentFrom (some text) encrypt password path s = SentAt encrypt password text path s

  opened-SentFrom :
      (o : Option Text) (encrypt : Bool) (password local p : Text) (s : S)
      → (upload_opened client cipher source o encrypt password local p s).0 ≡ true
      → SentFrom o encrypt password p
          (upload_opened client cipher source o encrypt password local p s).1
  opened-SentFrom none encrypt password local p s d = ground arith
  opened-SentFrom (some text) encrypt password local p s d =
      created-Sent (client.create p s).0 encrypt password local p text (client.create p s).1
        (laws.create_done p s) d

  pub upload_file-frame :
      (encrypt : Bool) (password local p q : Text) (s : S)
      → text_eq p q ≡ false
      → file (upload_file client cipher source encrypt password local p s).1 q ≡ file s q
  unfolding upload_file
  upload_file-frame encrypt password local p q s h =
      opened-frame (source.content local) encrypt password local p q s h

  pub upload_file-SentFrom :
      (encrypt : Bool) (password local p : Text) (s : S)
      → (upload_file client cipher source encrypt password local p s).0 ≡ true
      → SentFrom
          (source.content local)
          encrypt
          password
          p
          (upload_file client cipher source encrypt password local p s).1
  unfolding upload_file
  upload_file-SentFrom encrypt password local p s d =
      opened-SentFrom (source.content local) encrypt password local p s d
