-- ===== src/MessagePrinter/Fields.antt =====
-- What proto_test/main.cpp prints of the message that it makes.
use test_server.Base.{ℕ, List, [], ◌∷◌, true, false, codes, ◌≡◌, refl}
use test_server.MessagePrinter.{ContentMessage, text, enumerator, truth, printer_main}

-- What is documented of optional fields: one that was set holds what was set, one that was not
-- holds its default, GOOD for ppp, and setting one leaves the others alone.
pub record HasFields (m : ContentMessage) : Type 0 where
  pub jkl-change_jkl : (f : m.Aaa → m.Aaa) (c : m.Content) → m.jkl (m.change_jkl f c) ≡ f (m.jkl c)
  pub has_jkl-change_jkl : (f : m.Aaa → m.Aaa) (c : m.Content) → m.has_jkl (m.change_jkl f c) ≡ true
  pub aaa-set_aaa : (t : List ℕ) (a : m.Aaa) → m.aaa (m.set_aaa t a) ≡ t
  pub has_aaa-set_aaa : (t : List ℕ) (a : m.Aaa) → m.has_aaa (m.set_aaa t a) ≡ true
  pub ppp-fresh : m.ppp m.fresh ≡ 0
  pub ppp-set_abc : (n : ℕ) (c : m.Content) → m.ppp (m.set_abc n c) ≡ m.ppp c
  pub ppp-set_def : (t : List ℕ) (c : m.Content) → m.ppp (m.set_def t c) ≡ m.ppp c
  pub ppp-set_ghj : (n : ℕ) (c : m.Content) → m.ppp (m.set_ghj n c) ≡ m.ppp c
  pub ppp-change_jkl : (f : m.Aaa → m.Aaa) (c : m.Content) → m.ppp (m.change_jkl f c) ≡ m.ppp c

-- With generated classes that behave as documented main prints the text that it has put into the
-- message in the message, the default of ppp, which it has not set, that both are there, and that
-- the text is not empty.
pub printer_main-fields :
    (m : ContentMessage)
    → HasFields m
    → printer_main m
      ≡ text (codes "XKXK")
        ∷ enumerator 0
        ∷ truth [] true
        ∷ truth [] true
        ∷ truth (codes ":") false
        ∷ []
unfolding printer_main
printer_main-fields m fields =
    rw
      (
        fields.jkl-change_jkl, fields.has_jkl-change_jkl, fields.aaa-set_aaa,
        fields.has_aaa-set_aaa, fields.ppp-change_jkl, fields.ppp-set_ghj, fields.ppp-set_def,
        fields.ppp-set_abc, fields.ppp-fresh,
      )
      refl
