-- ===== src/Decision/Shell/Log.antt =====
-- The log of commands, and the chains that are created along it.
use mathlib.Core.List.{append_assoc, append-nil}
use vyatta_wanloadbalance.Common.{
  ◌≡◌, refl, sym, ap, ◌∙◌, ◌⊎◌, inl, inr, Bool, false, List, [], ◌∷◌, ◌++◌, Text, arith,
}
use vyatta_wanloadbalance.Decision.Shell.{
  Command, new_chain, flush_chain, drop_chain, append_rule, insert_rule, delete_rule, add_snat,
  delete_snat, shell, System, Shell, execute, execute_all,
}

abbrev pub Has : {A : Type 0} → A → List A → Type 0
Has a [] = ⊥
Has a (x ∷ xs) = (a ≡ x) ⊎ Has a xs

pub Has-left : {A : Type 0} (a : A) (xs ys : List A) → Has a xs → Has a (xs ++ ys)
Has-left a [] ys h = absurd h
Has-left a (x ∷ xs) ys (inl e) = inl e
Has-left a (x ∷ xs) ys (inr h) = inr (Has-left a xs ys h)

pub Has-right : {A : Type 0} (a : A) (xs ys : List A) → Has a ys → Has a (xs ++ ys)
Has-right a [] ys h = h
Has-right a (x ∷ xs) ys h = inr (Has-right a xs ys h)

pub Has-split : {A : Type 0} (a : A) (xs ys : List A) → Has a (xs ++ ys) → Has a xs ⊎ Has a ys
Has-split a [] ys h = inr h
Has-split a (x ∷ xs) ys (inl e) = inl (inl e)
Has-split a (x ∷ xs) ys (inr h) = elim (Has-split a xs ys h) [ inl g ↦ inl (inr g) | inr g ↦ inr g ]

-- The chains that a command creates, and those of a list of commands.
abbrev pub created_by : Command → List Text
created_by (new_chain chain) = chain ∷ []
created_by (flush_chain chain) = []
created_by (drop_chain chain) = []
created_by (append_rule chain rule) = []
created_by (insert_rule chain rule) = []
created_by (delete_rule chain rule) = []
created_by (add_snat mark addr) = []
created_by (delete_snat mark addr) = []
created_by (shell command) = []

abbrev pub created : List Command → List Text
created [] = []
created (command ∷ commands) = created_by command ++ created commands

pub created-append : (xs ys : List Command) → created (xs ++ ys) ≡ created xs ++ created ys
created-append [] ys = refl
created-append (x ∷ xs) ys =
    ap (λ cs. created_by x ++ cs) (created-append xs ys)
    ∙ sym (append_assoc (created_by x) (created xs) (created ys))

module _ (sys : System) where
  pub log-execute :
      (command : Command) (read : Bool) (s : Shell sys)
      → (execute sys command read s).2.log ≡ s.log ++ command ∷ []
  unfolding execute
  log-execute command read s = ground arith

  pub log-execute_all :
      (commands : List Command) (s : Shell sys)
      → (execute_all sys commands s).log ≡ s.log ++ commands
  unfolding execute_all
  log-execute_all [] s = sym (append-nil s.log)
  log-execute_all (command ∷ commands) s =
      log-execute_all commands _
      ∙ rw (log-execute command false s) (append_assoc s.log (command ∷ []) commands)
