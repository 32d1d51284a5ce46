-- ===== src/Language/French/Device.antt =====
-- spa/src/i18n/fr.js: the lines 168 to 263.
use esphome_gplug.Base.{[], ◌∷◌}
use esphome_gplug.Language.{Table, says, takes, lit, arg}

abbrev pub french_device : Table
french_device =
    says "streamRaw" "Brut · chiffré"
    ∷ says "streamPlain" "Déchiffré"
    ∷ says "streamHex" "Hex"
    ∷ says "streamText" "Texte en clair"
    ∷ says "tailOn" "Enregistrement en direct en cours"
    ∷ says "tailOff" "Affichage figé"
    ∷ takes "tailOnNote" 2 (
        lit "Tampon circulaire "
        ∷ arg 0
        ∷ lit " trames · ~"
        ∷ arg 1
        ∷ lit " kB · les plus anciennes sont écartées"
        ∷ [])
    ∷ says "tailOffNote" "L'affichage ne se met pas à jour, l'appareil continue d'enregistrer"
    ∷ says "selectFrame" "Sélectionner la trame"
    ∷ says "streamSelectAll" "Tout sélectionner"
    ∷ says "streamDeselectAll" "Annuler la sélection"
    ∷ takes "selCount" 2 (arg 0 ∷ lit " trames sélectionnées sur " ∷ arg 1 ∷ [])
    ∷ says "selNone" "Sans sélection, tout le tampon est exporté"
    ∷ says "frameMetaRaw" "GCM ciphertext"
    ∷ says "frameMetaTelegram" "Télégramme P1"
    ∷ says "frameMetaPlain" "Texte en clair"
    ∷ says "crcOk" "CRC OK"
    ∷ says "crcFail" "CRC FAIL"
    ∷ says "frameTxt" "Trame en .txt"
    ∷ says "copy" "Copier"
    ∷ says "copied" "Copié"
    ∷ says "exportSel" "Exporter la sélection"
    ∷ says "exportAll" "Exporter le tampon"
    ∷ takes "exportNoteSel" 1 (
        arg 0
        ∷ lit
            " trames sélectionnées en texte hexadécimal, une trame par bloc, avec horodatage et CRC."
        ∷ [])
    ∷ takes "exportNoteAll" 1 (
        lit "Les "
        ∷ arg 0
        ∷ lit " trames du tampon en texte hexadécimal, une trame par bloc, avec horodatage et CRC."
        ∷ [])
    ∷ says "dlRaw" "Hex brut .txt"
    ∷ says "dlPlain" "Déchiffré .txt"
    ∷ says "dlText" "Texte en clair .txt"
    ∷ says "dlHint" "La clé n'est jamais exportée."
    ∷ says "dsmrNote"
        "DSMR transmet des télégrammes en clair, non chiffrés — « Texte en clair » les montre tels qu'ils arrivent, « Hex » les mêmes octets pour le diagnostic."
    ∷ says "streamEmptyNone" "Aucun profil de compteur configuré pour l'instant."
    ∷ says "streamEmptyWaiting" "Aucune trame reçue pour l'instant."
    ∷ says "setupConn" "Connexion"
    ∷ says "host" "Hôte"
    ∷ says "ip" "IP"
    ∷ says "profile" "Profil"
    ∷ says "setupKey" "Clé (GUEK)"
    ∷ says "keySet" "valable"
    ∷ says "keyInvalidBadge" "non valable"
    ∷ says "keyNote" "Enregistrée uniquement sur l'appareil. Jamais affichée en clair ni exportée."
    ∷ says "language" "Langue"
    ∷ says "languageHint" "Enregistrée dans ce navigateur"
    ∷ says "theme" "Apparence"
    ∷ says "themeHint" "Enregistré dans ce navigateur"
    ∷ says "themeLight" "Clair"
    ∷ says "themeDark" "Sombre"
    ∷ says "fwTitle" "Micrologiciel et redémarrage"
    ∷ says "fwEsphome" "ESPHome"
    ∷ says "fwBuild" "Build"
    ∷ says "fwUptime" "Temps de marche"
    ∷ takes "fwUptimeDays" 2 (arg 0 ∷ lit " j " ∷ arg 1 ∷ lit " h" ∷ [])
    ∷ says "fwPick" "Choisir le fichier du micrologiciel"
    ∷ says "fwHint"
        "Choisissez un fichier au format OTA (firmware.ota.bin), par exemple depuis l'ESPHome Device Builder : Download → format OTA."
    ∷ says "fwNotImage" "Ce n'est pas un fichier de micrologiciel pour le gPlug."
    ∷ says "fwFactory"
        "Ceci est un fichier factory pour la première installation par USB. Veuillez choisir le fichier au format OTA."
    ∷ says "fwWrongChip" "Ce micrologiciel est destiné à une autre puce, pas au gPlug (ESP32-C3)."
    ∷ says "fwTooBig" "Le fichier est trop volumineux pour la mémoire de micrologiciel du gPlug."
    ∷ takes "fwOtherName" 2 (
        lit "Attention : micrologiciel pour « "
        ∷ arg 0
        ∷ lit " », cet appareil s'appelle « "
        ∷ arg 1
        ∷ lit " »."
        ∷ [])
    ∷ says "fwPassword" "Mot de passe OTA"
    ∷ says "fwInstall" "Installer"
    ∷ says "fwCancel" "Annuler"
    ∷ says "fwUploading" "Transfert du micrologiciel…"
    ∷ says "fwKeepPower" "Ne débranchez pas l'appareil et laissez cette page ouverte."
    ∷ says "fwRebooting" "L'appareil redémarre…"
    ∷ says "fwDone" "Micrologiciel mis à jour"
    ∷ says "fwRestarted" "Redémarré"
    ∷ says "fwReload" "Recharger la page"
    ∷ says "fwSameBuild"
        "L'appareil fonctionne à nouveau, mais avec le micrologiciel qu'il avait déjà : soit c'était le même fichier, soit l'appareil est revenu à la version précédente après un démarrage manqué."
    ∷ says "fwFailed" "Échec de la mise à jour"
    ∷ says "fwAuth" "Mot de passe OTA incorrect."
    ∷ says "fwRejected" "L'appareil a refusé le fichier."
    ∷ says "fwNoReturn" "L'appareil ne se manifeste plus. Rechargez la page dans quelques minutes."
    ∷ says "fwConnLost" "La connexion a été interrompue pendant le transfert."
    ∷ says "fwVersion" "METER"
    ∷ says "fwRelCheck" "Rechercher des mises à jour"
    ∷ says "fwRelChecking" "Recherche de mises à jour…"
    ∷ says "fwRelHint"
        "Interroge la page des versions sur github.io. L'appareil ne vérifie jamais de lui-même."
    ∷ takes "fwRelNone" 1 (arg 0 ∷ lit " est la version la plus récente." ∷ [])
    ∷ takes "fwRelAvail" 2 (lit "Mise à jour disponible : " ∷ arg 0 ∷ lit " → " ∷ arg 1 ∷ [])
    ∷ says "fwRelNotes" "Nouveautés"
    ∷ takes "fwRelInstall" 1 (lit "Installer " ∷ arg 0 ∷ [])
    ∷ says "fwRelConfirmHint"
        "L'appareil télécharge le firmware depuis github.io et redémarre. Le quart d'heure en cours est perdu ; les réglages et l'historique sont conservés."
    ∷ says "fwRelConfirm" "Installer maintenant"
    ∷ says "fwRelDownloading" "L'appareil télécharge le firmware…"
    ∷ says "fwRelErrCheck"
        "La recherche de mises à jour a échoué. Réessayez plus tard ou téléversez le fichier firmware ci-dessous."
    ∷ says "fwRelErrInstall" "Échec du téléchargement ; le firmware actuel continue de fonctionner."
    ∷ says "fwRelGone" "Plus de mise à jour disponible. Veuillez relancer la recherche."
    ∷ says "rsButton" "Redémarrer l'appareil"
    ∷ says "rsHint"
        "Les données en direct s'interrompent brièvement, les valeurs minute de la dernière heure et l'historique mémoire sur 24 h repartent de zéro."
    ∷ says "rsConfirm" "Vraiment redémarrer ?"
    ∷ says "rsBack" "L'appareil est de retour"
    ∷ says "rsLogged" "Le redémarrage est consigné dans le journal des événements."
    ∷ says "rsFailed" "Échec du redémarrage"
    ∷ says "rsFromSpa" "depuis l'interface web"
    ∷ []
