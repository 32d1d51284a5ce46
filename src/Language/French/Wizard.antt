-- ===== src/Language/French/Wizard.antt =====
-- spa/src/i18n/fr.js: the lines 7 to 114.
use esphome_gplug.Base.{[], ◌∷◌}
use esphome_gplug.Language.{Table, says, takes, lit, arg}

abbrev pub french_wizard : Table
french_wizard =
    says "brand" "Adaptateur IoT"
    ∷ says "title" "Configuration de METER"
    ∷ says "next" "Suivant"
    ∷ says "back" "Retour"
    ∷ says "skip" "Ignorer"
    ∷ says "finish" "Terminé"
    ∷ says "loading" "Chargement…"
    ∷ says "error" "Erreur"
    ∷ says "retry" "Réessayer"
    ∷ says "errTimeout"
        "L'appareil ne répond pas. Vérifiez qu'il est sous tension et accessible, puis réessayez."
    ∷ says "errNetwork" "Appareil inaccessible. Vérifiez la connexion Wi-Fi au gPlug."
    ∷ says "errServer" "Erreur de l'appareil"
    ∷ says "errNoStoredKey"
        "Aucune clé n'est enregistrée sur l'appareil. Veuillez saisir à nouveau la clé (GUEK)."
    ∷ says "errHistoryOff"
        "L'appareil n'enregistre aucun historique (zone de mémoire indisponible)."
    ∷ says "welcome" "Bienvenue"
    ∷ says "welcomeText"
        "Cet assistant configure votre gPlug en trois étapes : appareil, Smart Meter, fin."
    ∷ says "version" "Micrologiciel"
    ∷ says "hardware" "Appareil"
    ∷ says "hardwareText" "Quel gPlug possédez-vous ? La désignation figure sur le boîtier."
    ∷ says "pins" "Affectation des broches (à modifier seulement si nécessaire)"
    ∷ says "pinHint" "ESP32-C3 : GPIO 0–21. Vide = absent."
    ∷ says "pinRx" "HAN RX"
    ∷ says "pinRed" "LED rouge"
    ∷ says "pinGreen" "LED verte"
    ∷ says "pinBlue" "LED bleue"
    ∷ says "pinButton" "Bouton"
    ∷ says "none" "–"
    ∷ says "meter" "Smart Meter"
    ∷ says "meterText"
        "Le gPlug écoute ce que votre compteur envoie et propose le profil correspondant. Le profil détermine les valeurs lues."
    ∷ says "meterTextManual"
        "Choisissez le profil de votre gestionnaire de réseau. Il détermine le protocole, la vitesse de transmission et les valeurs lues."
    ∷ says "detectTitle" "Détection du compteur"
    ∷ says "detectWaiting" "En attente de signaux du compteur…"
    ∷ says "detectWaitingHint"
        "Cela ne prend généralement que quelques secondes. Vous pouvez aussi choisir le profil vous-même."
    ∷ says "detectWaitingLong"
        "Rien reçu pour l'instant. Vérifiez le câble vers l'interface client – chez certains gestionnaires de réseau, elle doit d'abord être activée."
    ∷ says "detectSignal" "Signaux reçus, format pas encore identifié…"
    ∷ says "detectFound" "Compteur détecté"
    ∷ says "detectProtoDsmr" "P1 DSMR, en clair"
    ∷ says "detectProtoDlms" "HDLC/DLMS"
    ∷ says "detectEncrypted" "chiffré"
    ∷ says "detectPlain" "non chiffré"
    ∷ says "detectKeyNeeded"
        "Le compteur émet des données chiffrées. Il vous faut la clé (GUEK) de votre gestionnaire de réseau."
    ∷ says "detectNoFit"
        "Aucun profil avec ce protocole n'est prévu pour cet appareil. Vérifiez le type de gPlug."
    ∷ says "detectPick" "Veuillez choisir le profil de votre gestionnaire de réseau :"
    ∷ says "otherProfile" "Choisir un autre profil"
    ∷ says "key" "Clé (GUEK)"
    ∷ says "keyHint"
        "32 caractères hexadécimaux. Vous obtenez la clé auprès de votre gestionnaire de réseau. Elle est enregistrée uniquement sur l'appareil et n'est plus jamais affichée."
    ∷ says "keyOptionalHint" "Laissez vide si votre compteur émet des données non chiffrées."
    ∷ says "keyInvalid" "La clé doit comporter 32 caractères hexadécimaux."
    ∷ says "encrypted" "chiffré"
    ∷ says "noPresetForVariant" "Aucun profil n'est prévu pour cet appareil."
    ∷ says "showAll" "Afficher tous les profils"
    ∷ says "values" "Valeurs"
    ∷ says "wifi" "Wi-Fi"
    ∷ says "wifiText"
        "Connectez le gPlug à votre réseau domestique. Il sera ensuite accessible à l'adresse indiquée ci-dessous."
    ∷ says "ssid" "Réseau"
    ∷ says "connect" "Connecter"
    ∷ says "signal" "Signal"
    ∷ says "password" "Mot de passe"
    ∷ says "scan" "Rechercher des réseaux"
    ∷ says "manual" "Saisir le réseau manuellement"
    ∷ says "connecting" "Connexion…"
    ∷ says "connected" "Connecté"
    ∷ says "connectFailed" "Échec de la connexion. Vérifiez le mot de passe."
    ∷ says "changeWifi" "Changer de Wi-Fi"
    ∷ says "done" "Fin"
    ∷ says "doneText" "Le gPlug est configuré et lit le compteur."
    ∷ says "waitingData" "En attente de données du compteur…"
    ∷ says "dataOk" "Données à jour"
    ∷ says "noData" "Aucune donnée"
    ∷ says "noDataHint" "Le compteur n'envoie rien. Vérifiez le raccordement, le profil et la clé."
    ∷ says "keyWrongHint"
        "Le compteur émet des données chiffrées, mais la clé (GUEK) ne correspond pas."
    ∷ says "keyWrong" "Clé non valable"
    ∷ says "openLive" "Ouvrir la vue en direct"
    ∷ says "checkTitle" "Liaison avec le compteur"
    ∷ says "checkWaiting" "En attente des premières données du compteur…"
    ∷ says "checkWaitingHint" "Selon le compteur, cela peut prendre jusqu'à une minute."
    ∷ says "checkOk" "Données reçues"
    ∷ says "meterId" "Compteur"
    ∷ says "continueAnyway" "Continuer quand même vers la vue en direct"
    ∷ says "dgLabel" "Vérifier la configuration"
    ∷ says "fixHardware" "Vérifier l'appareil et le raccordement"
    ∷ says "fixMeter" "Changer le profil du compteur"
    ∷ says "fixKey" "Saisir à nouveau la clé"
    ∷ says "dgSilent" "Aucun signal du compteur"
    ∷ says "dgSilentHint"
        "Rien n'arrive à l'interface client. Vérifiez le câble et si le bon type de gPlug est sélectionné. Chez de nombreux gestionnaires de réseau, l'interface client doit d'abord être activée – en cas de doute, renseignez-vous."
    ∷ says "dgGarbled" "Données illisibles"
    ∷ says "dgGarbledPill" "Données illisibles"
    ∷ says "dgGarbledHint"
        "Le compteur émet, mais les données ne correspondent pas au profil sélectionné (protocole ou vitesse de transmission). Un autre profil de compteur résout généralement le problème."
    ∷ says "dgNoMatch" "Aucune valeur correspondante"
    ∷ says "dgNoMatchPill" "Aucune valeur"
    ∷ says "dgNoMatchHint"
        "Le compteur envoie des données lisibles, mais aucune des valeurs du profil sélectionné ne s'y trouve. Choisissez le profil de votre compteur ou de votre gestionnaire de réseau."
    ∷ says "dgProtocol" "Le profil ne correspond pas au compteur"
    ∷ says "dgProtocolPill" "Profil incorrect"
    ∷ says "dgProtocolHint"
        "Le compteur parle un autre protocole que celui attendu par le profil sélectionné. Choisissez à nouveau le profil – le type de compteur détecté est proposé."
    ∷ says "dgKey" "La clé ne correspond pas"
    ∷ says "dgKeyHint"
        "Le compteur émet des données chiffrées, mais la clé (GUEK) ne les déchiffre pas. Vous obtenez la clé auprès du gestionnaire de réseau."
    ∷ says "keepKey" "Utiliser la clé enregistrée"
    ∷ says "keepKeyHint" "La clé reste sur l'appareil et n'est pas affichée."
    ∷ takes "keyFingerprint" 1
        (lit "Identifiant " ∷ arg 0 ∷ lit " (somme de contrôle, change avec la clé)" ∷ [])
    ∷ says "keyCheck" "Comparer avec la lettre du gestionnaire de réseau"
    ∷ says "keyCheckBtn" "Vérifier"
    ∷ says "keyMatch" "Correspond à la clé enregistrée."
    ∷ says "keyMismatch"
        "Ne correspond pas. Désactivez l'interrupteur et saisissez la clé de la lettre."
    ∷ []
