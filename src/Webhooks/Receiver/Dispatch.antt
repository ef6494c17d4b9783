-- ===== src/Webhooks/Receiver/Dispatch.antt =====
-- Which requests reach the deploy, and what the others leave.
use poor_man_stack.Base.{
  zero, ◌||◌, ℕ, suc, ◌≤◌, Text, codes, ◌==◌, text_eq, text_beq_iff, nat_eq, true, false, ◌≡◌, refl,
  ◌≢◌, ◌⊎◌, Option, none, some, List, [], ◌∷◌, ok, ltb, length, take, arith, Bool-cases,
  Option-cases, inl, inr, Result-cases, ap, sym, subst, ◌∙◌,
}
use poor_man_stack.Deploy.World.{Payload}
use poor_man_stack.Webhooks.Wire.{Bytes}
use poor_man_stack.Webhooks.Receiver.{
  Post, Services, Response, too_large, status_code, recorded, rejected, deployed, receive_verified,
  receive_body, receive, provenance_required,
}
use poor_man_stack.Webhooks.Receiver.Authenticity.{IsSigned, verify, IsSigned-of_verify}

ltb-false→le : (a b : ℕ) → ltb a b ≡ false → b ≤ a
ltb-false→le a b h = ground arith

-- The reader that stops one byte behind the limit has read all of what is within the limit.
take-whole {ℓ} :
    {A : Type ℓ} (n : ℕ) (xs : List A) → length (take (suc n) xs) ≤ n → take (suc n) xs ≡ xs
take-whole n [] h = refl
take-whole zero (x ∷ xs) h = absurd (omega arith)
take-whole (suc n) (x ∷ xs) h = ap (◌∷◌ x) (take-whole n xs (omega (arith, h)))

module _ (services : Services) where
  open services use {State, mark_used, deploy, decode}

  -- What a request that is handed to the deploy has shown, and what it gets.
  pub record IsForwarded (now : ℕ) (post : Post) (s : State) (out : State × Response) : Type 0 where
    pub body : Bytes
    pub sent : post.body ≡ ok body
    pub short : length body ≤ 1048576
    pub signed : IsSigned services now post body s
    pub payload : Payload
    pub decoded : decode body ≡ ok payload
    pub repo : payload.repo_url ≢ []
    pub file : payload.file ≢ []
    pub result : out ≡ deployed services post.source payload (mark_used post.source s)
    pub answered : (status_code out.1 ≡ 200) ⊎ (status_code out.1 ≡ 502)

  -- What a refused request leaves: one entry of the history, and the mark on its source if it was
  -- signed.
  pub record IsRefused (now : ℕ) (post : Post) (s : State) (out : State × Response) : Type 0 where
    pub status : Text
    pub payload : Option Payload
    pub error : Text
    pub before : State
    pub left : out.0 ≡ recorded services post.source status payload error none before
    pub marked :
        (before ≡ s)
        ⊎ ((before ≡ mark_used post.source s)
            × ((body : Bytes) × (post.body ≡ ok body) × IsSigned services now post body s))
    pub code : (status_code out.1 ≡ 400) ⊎ ((status_code out.1 ≡ 401) ⊎ (status_code out.1 ≡ 413))

  -- Every error of the deploy gives the same status.
  status_code-deployed :
      (source : Text) (p : Payload) (s : State)
      → (status_code (deployed services source p s).1 ≡ 200)
        ⊎ (status_code (deployed services source p s).1 ≡ 502)
  unfolding deployed status_code
  status_code-deployed source p s = elim (Result-cases (deploy p s).1) [
    | inl (done, went) ↦ inl (ground arith)
    | inr (e, failed) ↦ inr (ground arith)
  ]

  receive_verified-cases :
      (now : ℕ) (post : Post) (body : Bytes) (s : State)
      → post.body ≡ ok body
      → length body ≤ 1048576
      → IsSigned services now post body s
      → let out = receive_verified services post.source body (mark_used post.source s) in
        IsForwarded now post s out ⊎ IsRefused now post s out
  unfolding receive_verified
  receive_verified-cases now post body s sent short signed = elim (Result-cases (decode body)) [
    | inr (e, bad) ↦ inr (record {
      status = codes "bad_request";
      payload = none;
      error = [];
      before = mark_used post.source s;
      left = ground arith;
      marked = inr (refl, (body, sent, signed));
      code = inl (unfold status_code in ground arith);
    })
    | inl (p, read) ↦ elim (Bool-cases (p.repo_url == [] || p.file == [])) [
      | inl missing ↦ inr (record {
        status = codes "bad_request";
        payload = some p;
        error = provenance_required;
        before = mark_used post.source s;
        left = ground arith;
        marked = inr (refl, (body, sent, signed));
        code = inl (unfold status_code in ground arith);
      })
      | inr present ↦ inl (record {
        body = body;
        sent = sent;
        short = short;
        signed = signed;
        payload = p;
        decoded = read;
        repo = ground (arith, text_beq_iff p.repo_url []);
        file = ground (arith, text_beq_iff p.file []);
        result = ground arith;
        answered =
            let goes : receive_verified services post.source body (mark_used post.source s)
                ≡ deployed services post.source p (mark_used post.source s) =
              ground arith in
            subst
              (λ (out : State × Response). (status_code out.1 ≡ 200) ⊎ (status_code out.1 ≡ 502))
              (sym goes) (status_code-deployed post.source p (mark_used post.source s));
      })
    ]
  ]

  receive_body-cases :
      (now : ℕ) (post : Post) (body : Bytes) (s : State)
      → post.body ≡ ok body
      → length body ≤ 1048576
      → let out = receive_body services now post body s in
        IsForwarded now post s out ⊎ IsRefused now post s out
  receive_body-cases now post body s sent short =
      let small : ltb 1048576 (length body) ≡ false = ground arith in
      elim (Option-cases (verify services now post body s)) [
        | inl passed ↦
            let goes : receive_body services now post body s
                ≡ receive_verified services post.source body (mark_used post.source s) =
              unfold receive_body verify in ground arith in
            subst (λ out. IsForwarded now post s out ⊎ IsRefused now post s out) (sym goes)
              (receive_verified-cases now post body s sent short
                (IsSigned-of_verify services now post body s passed))
        | inr (e, failed) ↦ inr (record {
          status = codes "unauthorized";
          payload = none;
          error = [];
          before = s;
          left = unfold receive_body verify in ground arith;
          marked = inl refl;
          code = inr (inl (unfold receive_body verify status_code in ground arith));
        })
      ]

  receive_body-long :
      (now : ℕ) (post : Post) (body : Bytes) (s : State)
      → ltb 1048576 (length body) ≡ true
      → receive_body services now post body s
        ≡ (rejected services post.source (codes "bad_request") s, too_large)
  unfolding receive_body
  receive_body-long now post body s long = rw long

  receive_body-IsRefused :
      (now : ℕ) (post : Post) (body : Bytes) (s : State)
      → ltb 1048576 (length body) ≡ true
      → IsRefused now post s (receive_body services now post body s)
  unfolding status_code
  receive_body-IsRefused now post body s long =
      rw (receive_body-long now post body s long) (record {
        status = codes "bad_request";
        payload = none;
        error = [];
        before = s;
        left = refl;
        marked = inl refl;
        code = inr (inr refl);
      })

  -- A request is handed to the deploy only when its body is within the limit, signed, and decodes
  -- to a payload that names its repository and file; then the deploy gets that payload, and the
  -- status is 200, or 502 whatever its error. In every other case the status is 400, 401 or 413 and
  -- nothing happens but the entry in the history, and the mark on the source if the body was signed.
  pub receive_lem :
      (now : ℕ) (post : Post) (s : State)
      → IsForwarded now post s (receive services now post s)
        ⊎ IsRefused now post s (receive services now post s)
  unfolding receive status_code
  receive_lem now post s = elim (Bool-cases (post.source == [])) [
    | inl nameless ↦ inr (record {
      status = codes "bad_request";
      payload = none;
      error = [];
      before = s;
      left = ground arith;
      marked = inl refl;
      code = inl (ground arith);
    })
    | inr named ↦ elim (Result-cases post.body) [
      | inr (e, unread) ↦ inr (record {
        status = codes "bad_request";
        payload = none;
        error = [];
        before = s;
        left = ground arith;
        marked = inl refl;
        code = inl (ground arith);
      })
      | inl (sent, there) ↦
          let goes : receive services now post s
              ≡ receive_body services now post (take 1048577 sent) s =
            rw (named, there, receive) refl in
          elim (Bool-cases (ltb 1048576 (length (take 1048577 sent)))) [
            | inl long ↦ inr (
                subst (IsRefused now post s) (sym goes)
                  (receive_body-IsRefused now post (take 1048577 sent) s long))
            | inr short ↦
                let read : length (take 1048577 sent) ≤ 1048576 =
                  ltb-false→le 1048576 (length (take 1048577 sent)) short in
                let same : take 1048577 sent ≡ sent = take-whole 1048576 sent read in
                subst (λ out. IsForwarded now post s out ⊎ IsRefused now post s out)
                  (sym (goes ∙ ap (λ b. receive_body services now post b s) same))
                  (receive_body-cases now post sent s there
                    (subst (λ b. length b ≤ 1048576) same read))
          ]
    ]
  ]
