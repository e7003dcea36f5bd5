-- ===== src/MessagePrinter.antt =====
-- main of proto_test/main.cpp, over the classes that protoc generates from msg.proto.
pub mod Fields
use test_server.Base.{false, true, ℕ, List, [], ◌∷◌, Bool, codes}

-- test::AAA and test::Content, as far as main uses them. The pointer that mutable_jkl gives is
-- followed once, so `change_jkl f` is what is done through it. `is_empty` is std::string::empty.
pub record ContentMessage : Type 1 where
  pub Aaa : Type 0
  pub Content : Type 0
  pub fresh : Content
  pub set_abc : ℕ → Content → Content
  pub set_def : List ℕ → Content → Content
  pub set_ghj : ℕ → Content → Content
  pub change_jkl : (Aaa → Aaa) → Content → Content
  pub jkl : Content → Aaa
  pub has_jkl : Content → Bool
  pub ppp : Content → ℕ
  pub set_aaa : List ℕ → Aaa → Aaa
  pub aaa : Aaa → List ℕ
  pub has_aaa : Aaa → Bool

-- What std::cout is given: a text, the number of an enumerator, or a truth value, behind a text or
-- not.
pub data Printed : Type 0 where
  text : List ℕ → Printed
  enumerator : ℕ → Printed
  truth : List ℕ → Bool → Printed

-- std::string::empty
abbrev pub is_empty : List ℕ → Bool
is_empty [] = true
is_empty (b ∷ more) = false

module _ (m : ContentMessage) where
  -- The message that main makes.
  abbrev pub message : m.Content
  message =
      m.change_jkl (m.set_aaa (codes "XKXK"))
        (m.set_ghj 90000 (m.set_def (codes "MMKMKMK") (m.set_abc 12345 m.fresh)))

  unfoldable pub printer_main : List Printed
  printer_main =
      text (m.aaa (m.jkl message))
      ∷ enumerator (m.ppp message)
      ∷ truth [] (m.has_jkl message)
      ∷ truth [] (m.has_aaa (m.jkl message))
      ∷ truth (codes ":") (is_empty (m.aaa (m.jkl message)))
      ∷ []
