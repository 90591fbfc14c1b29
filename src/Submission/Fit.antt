-- ===== src/Submission/Fit.antt =====
-- What has to hold of a submission for its checks to pass.
use aerobi_api.Common.{
  ◌≡◌, refl, ap, Bool, true, false, not, ◌||◌, Option, none, some, String, ℕ, ◌+◌, ◌<◌, ◌≤◌,
}
use aerobi_api.Common.Text.{Text}
use aerobi_api.Common.Errors.{
  ok, resource_not_found_error, >>=-eq-ok, ok-eq, ensure, present, ensure-eq-ok, present-eq-ok,
}
use aerobi_api.Registrations.{
  RegistrationResolution, normalized, error, resolve_aircraft_registration,
}
use aerobi_api.Landing.Store.{database_error}
use aerobi_api.Landing.Schedule.{ScheduleError, validate_landing_schedule_iff}
use aerobi_api.Submission.Form.{
  CreateLandingRequestDto, schedule_message, validation_failed, closed_aerodrome,
  format_cpf_for_anac, validate_pilot_license, licence_result,
}
use aerobi_api.Submission.Aircraft.{
  RabRow, normalize_rab_marcas, find_latest_by_marcas, lookup_rab_aircraft, found_in_rab,
}
use aerobi_api.Submission.Prepare.{
  Site, SubmissionWorld, Prepared, is_foreign, prepare, find_target_aerodrome, check_schedule,
  check_registration,
}

module _ (other : ℕ → Text) (anac : Text → String → Option Bool) (site : Site)
    (dto : CreateLandingRequestDto) where
  -- A foreign aircraft has no row in the RAB; a national one has the newest of its registration.
  abbrev pub IsKnown : Bool → Text → Option RabRow → Type 0
  IsKnown true registration row = row ≡ none
  IsKnown false registration row =
      (r : RabRow) × (find_latest_by_marcas other site.rab_rows
          (normalize_rab_marcas other registration)
        ≡ some r)
      × (row ≡ some r)

  pub record IsFit (now : ℕ) (p : Prepared) : Type 0 where
    pub ahead : now < dto.departure_at
    pub after_departure : dto.departure_at < dto.landing_at
    pub three_hours : now + 10800000 ≤ dto.landing_at
    pub leaves_later : dto.landing_at < dto.exit_after_landing_at
    pub accepted :
        resolve_aircraft_registration other dto.aircraft_registration (is_foreign dto)
        ≡ normalized p.registration
    pub there : find_target_aerodrome site.aerodromes dto.aerodrome_id ≡ some p.target
    pub open' : p.target.is_open ≡ true
    pub licensed : anac (format_cpf_for_anac dto.pilot_cpf) dto.anac_pilot_code ≡ some true
    pub known : IsKnown (is_foreign dto) p.registration p.rab_row

  schedule-none : (o : Option ScheduleError) → check_schedule o ≡ ok tt → o ≡ none
  unfolding schedule_message validation_failed
  schedule-none none h = refl
  schedule-none (some e) h = absurd (cc h)

  registration-normalized :
      (r : RegistrationResolution) {t : Text} → check_registration r ≡ ok t → r ≡ normalized t
  unfolding validation_failed
  registration-normalized (normalized t) h = ap normalized (ok-eq h)
  registration-normalized (error m) h = absurd (cc h)

  licence-valid : (o : Option Bool) → licence_result o ≡ ok tt → o ≡ some true
  licence-valid none h = absurd (cc h)
  licence-valid (some true) h = refl
  licence-valid (some false) h = absurd (cc h)

  rab-found :
      (o : Option RabRow) {r : Option RabRow}
      → found_in_rab o ≡ ok r
      → (q : RabRow) × (o ≡ some q) × (r ≡ some q)
  rab-found none h = absurd (cc h)
  rab-found (some q) h = (q, refl, cc h)

  lookup-IsKnown :
      (foreign : Bool) (registration : Text) {r : Option RabRow}
      → lookup_rab_aircraft other site.rab_rows registration foreign ≡ ok r
      → IsKnown foreign registration r
  unfolding lookup_rab_aircraft
  lookup-IsKnown true registration h = cc h
  lookup-IsKnown false registration h = rab-found _ h

  pub prepare-IsFit :
      (w : SubmissionWorld) {p : Prepared} → prepare other anac w site dto ≡ ok p → IsFit w.now p
  unfolding prepare validate_pilot_license
  prepare-IsFit w {p} h =
      let (a, scheduled, h1) = >>=-eq-ok _ _ h in
      let (registration, resolved, h2) = >>=-eq-ok _ _ h1 in
      let (b, up, h3) = >>=-eq-ok (ensure (not w.target_lookup_fails) database_error) _ h2 in
      let (target, found, h4) =
        >>=-eq-ok
          (present (find_target_aerodrome site.aerodromes dto.aerodrome_id)
            (resource_not_found_error "Aeródromo" dto.aerodrome_id))
          _ h3 in
      let (c, opened, h5) = >>=-eq-ok (ensure target.is_open closed_aerodrome) _ h4 in
      let (d, valid, h6) =
        >>=-eq-ok (validate_pilot_license anac dto.pilot_cpf dto.anac_pilot_code) _ h5 in
      let (e, reachable, h7) =
        >>=-eq-ok (ensure (is_foreign dto || not w.rab_lookup_fails) database_error) _ h6 in
      let (row, looked, h8) =
        >>=-eq-ok (lookup_rab_aircraft other site.rab_rows registration (is_foreign dto)) _ h7 in
      let times =
        (validate_landing_schedule_iff dto.departure_at dto.landing_at dto.exit_after_landing_at
            w.now).0
          (schedule-none _ scheduled) in
      let whole : Prepared = record {
        registration = registration;
        target = target;
        rab_row = row;
      } in
      let same : p ≡ whole = cc h8 in
      rw same (record {
        ahead = times.0;
        after_departure = times.1;
        three_hours = times.2;
        leaves_later = times.3;
        accepted = registration-normalized _ resolved;
        there = present-eq-ok _ _ found;
        open' = ensure-eq-ok _ _ opened;
        licensed = licence-valid _ valid;
        known = lookup-IsKnown _ _ looked;
      })
