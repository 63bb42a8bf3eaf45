-- ===== src/Ipc/Strings.antt =====
-- src/ipc_actor.cpp: `nextstr` reads back a string that the sender wrote, and stays in bounds.
use emilua.Common.{
  ℕ, suc, ◌+◌, ◌-◌, ◌≤◌, ◌≡◌, sym, ap, ◌∙◌, true, List, ◌∷◌, ◌++◌, arith, length, get_or, take,
  drop, take-append, take_all, drop-drop, drop-append_ge, get_or-drop,
}
use emilua.Ipc.{Message, chars, nextstr, boundsvalid, sizeof_members}
use emilua.Ipc.Values.{behind}

-- At `strit` stands the string `s`, and `rest` follows.
module _ (message : Message) (strit : ℕ) (s rest : List ℕ)
    (at : drop strit message.strbuf ≡ (length s ∷ s) ++ rest) where
  nextstr-size : get_or message.strbuf strit 0 ≡ length s
  nextstr-size =
      let e : strit + 0 ≡ strit = omega arith in
      ap (λ k. get_or message.strbuf k 0) (sym e)
      ∙ sym (get_or-drop strit 0 message.strbuf 0)
      ∙ ap (λ l. get_or l 0 0) at

  pub chars-nextstr : chars message (nextstr message strit) ≡ s
  chars-nextstr =
      sym (ap (λ l. take (get_or message.strbuf strit 0) l) (drop-drop 1 strit message.strbuf))
      ∙ ap (λ l. take (get_or message.strbuf strit 0) (drop 1 l)) at
      ∙ ap (λ k. take k (s ++ rest)) nextstr-size
      ∙ take-append (length s) s rest (omega arith)
      ∙ take_all (length s) s (omega arith)

  pub behind-nextstr : behind (nextstr message strit) ≡ strit + suc (length s)
  behind-nextstr = omega (arith, nextstr-size)

  pub drop-nextstr : drop (behind (nextstr message strit)) message.strbuf ≡ rest
  drop-nextstr =
      let e : suc (length s) - length (length s ∷ s) ≡ 0 = omega arith in
      ap (λ k. drop k message.strbuf) behind-nextstr
      ∙ sym (drop-drop (suc (length s)) strit message.strbuf)
      ∙ ap (λ l. drop (suc (length s)) l) at
      ∙ drop-append_ge (suc (length s)) (length s ∷ s) rest (omega arith)
      ∙ ap (λ k. drop k rest) e

  pub nextstr-fits :
      (nread : ℕ)
      → sizeof_members message + strit + suc (length s) ≤ nread
      → boundsvalid message nread (nextstr message strit) ≡ true
  nextstr-fits nread h = let e = nextstr-size in ground arith
